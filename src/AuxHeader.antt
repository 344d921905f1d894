-- ===== src/AuxHeader.antt =====
-- litenyx/LITENYX_auxpow.h: the header that a block carries for Litenyx, its wire formats V0 to V4,
-- and the structural presence of its commitments. The integers and the 32-byte hashes are written as
-- the daemon's serialization framework writes them: lowest byte first, and as they are.
pub mod Layout
mod Tests
use litenyx.Common.{
  ℕ, ◌+◌, ◌*◌, ◌/◌, ◌%◌, ◌^◌, Bool, true, false, not, ◌&&◌, ◌||◌, Option, none, some, List, [], ◌∷◌,
  ◌++◌, ltb, leb, ◌==◌, if◌then◌else◌, length, take, drop, replicate,
}
use litenyx.Common.Words.{le32}
use litenyx.Params.{min_chains, max_chains}

abbrev pub magic_v1 : ℕ
magic_v1 = 0x4C59_5858

abbrev pub magic_v2 : ℕ
magic_v2 = 0x4C59_5932

abbrev pub magic_v3 : ℕ
magic_v3 = 0x4C59_5933

abbrev pub magic_v4 : ℕ
magic_v4 = 0x4C59_5934

-- A `uint256` is the list of its 32 bytes.
pub record AuxHeader : Type 0 where
  pub magic : ℕ  -- uint32
  pub chain_id : ℕ  -- uint32
  pub event_height : ℕ  -- uint32
  pub aux_anchor : List ℕ
  pub split_vector : ℕ  -- uint64
  pub reserved : ℕ  -- uint32
  pub topology_commitment : List ℕ
  pub lifecycle_commitment : List ℕ
  pub drain_chain_id : ℕ  -- uint32
  pub drain_start_height : ℕ  -- uint32

abbrev pub null_hash : List ℕ
null_hash = replicate 32 0

abbrev pub null_header : AuxHeader
null_header = record {
  magic = 0;
  chain_id = 0;
  event_height = 0;
  aux_anchor = null_hash;
  split_vector = 0;
  reserved = 0;
  topology_commitment = null_hash;
  lifecycle_commitment = null_hash;
  drain_chain_id = 0;
  drain_start_height = 0;
}

abbrev pub is_v1 : AuxHeader → Bool
is_v1 a = a.magic == magic_v1

abbrev pub is_v2 : AuxHeader → Bool
is_v2 a = a.magic == magic_v2

abbrev pub is_v3 : AuxHeader → Bool
is_v3 a = a.magic == magic_v3

abbrev pub is_v4 : AuxHeader → Bool
is_v4 a = a.magic == magic_v4

abbrev pub has_known_magic : AuxHeader → Bool
has_known_magic a = is_v1 a || (is_v2 a || (is_v3 a || is_v4 a))

abbrev pub has_topology_commitment : AuxHeader → Bool
has_topology_commitment a = is_v2 a || (is_v3 a || is_v4 a)

abbrev pub has_lifecycle_commitment : AuxHeader → Bool
has_lifecycle_commitment a = is_v3 a || is_v4 a

abbrev pub has_drain_commitment : AuxHeader → Bool
has_drain_commitment a = is_v4 a

-- Phase 2 reads neither the event height nor the split vector.
pub validate_aux_event : AuxHeader → ℕ → ℕ → Bool
validate_aux_event a event_height target_count =
    if not (has_known_magic a)
    then false
    else if not (a.reserved == 0)
    then false
    else if leb max_chains a.chain_id
    then false
    else if ltb target_count min_chains
    then false
    else not (ltb max_chains target_count)

le64 : ℕ → List ℕ
le64 v = le32 (v % 2 ^ 32) ++ le32 (v / 2 ^ 32)

-- The fields after the ones that every format has.
abbrev tail_v4 : AuxHeader → List ℕ
tail_v4 a =
    if has_drain_commitment a then le32 a.drain_chain_id ++ le32 a.drain_start_height else []

abbrev tail_v3 : AuxHeader → List ℕ
tail_v3 a = (if has_lifecycle_commitment a then a.lifecycle_commitment else []) ++ tail_v4 a

abbrev tail_v2 : AuxHeader → List ℕ
tail_v2 a = (if has_topology_commitment a then a.topology_commitment else []) ++ tail_v3 a

abbrev tail_v1 : AuxHeader → List ℕ
tail_v1 a = le64 a.split_vector ++ le32 a.reserved ++ tail_v2 a

pub serialize : AuxHeader → List ℕ
unfolding le64
serialize a = le32 a.magic ++ le32 a.chain_id ++ le32 a.event_height ++ (a.aux_anchor ++ tail_v1 a)

-- A reader takes a value off the front of the stream, and has none where the stream is too short.
abbrev Reader : Type 0 → Type 0
Reader A = List ℕ → Option (A × List ℕ)

abbrev read32 : Reader ℕ
read32 (a ∷ b ∷ c ∷ d ∷ rest) = some (a + b * 2 ^ 8 + c * 2 ^ 16 + d * 2 ^ 24, rest)
read32 _ = none

abbrev read256 : Reader (List ℕ)
read256 bytes = if ltb (length bytes) 32 then none else some (take 32 bytes, drop 32 bytes)

infixl 10 ◌>>=◌
-- The passage of a chain of readers: the first that has no value ends it.
abbrev pub ◌>>=◌ {ℓ κ} : {A : Type ℓ} {B : Type κ} → Option A → (A → Option B) → Option B
none >>= f = none
some a >>= f = f a

read64 : Reader ℕ
read64 bytes = do (lo, s) ← read32 bytes; (hi, s) ← read32 s; some (lo + hi * 2 ^ 32, s)

abbrev read_topology : AuxHeader → Reader AuxHeader
read_topology a bytes =
    if has_topology_commitment a
    then read256 bytes >>= (λ (c, s). some (record a { topology_commitment = c }, s))
    else some (a, bytes)

abbrev read_lifecycle : AuxHeader → Reader AuxHeader
read_lifecycle a bytes =
    if has_lifecycle_commitment a
    then read256 bytes >>= (λ (c, s). some (record a { lifecycle_commitment = c }, s))
    else some (a, bytes)

abbrev read_drain_fields : AuxHeader → Reader AuxHeader
read_drain_fields a bytes = do
  (c, s) ← read32 bytes
  (h, s) ← read32 s
  some (record a { drain_chain_id = c; drain_start_height = h }, s)

abbrev read_drain : AuxHeader → Reader AuxHeader
read_drain a bytes = if has_drain_commitment a then read_drain_fields a bytes else some (a, bytes)

abbrev read_tail : AuxHeader → Reader AuxHeader
read_tail a bytes = do (b, s) ← read_topology a bytes; (c, s) ← read_lifecycle b s; read_drain c s

-- Reading writes to an existing header: what the format does not carry keeps its value there.
pub deserialize : AuxHeader → Reader AuxHeader
unfolding read64
deserialize old bytes = do
  (magic, s) ← read32 bytes
  (chain_id, s) ← read32 s
  (event_height, s) ← read32 s
  (anchor, s) ← read256 s
  (split_vector, s) ← read64 s
  (reserved, s) ← read32 s
  read_tail
      (record old {
        magic = magic;
        chain_id = chain_id;
        event_height = event_height;
        aux_anchor = anchor;
        split_vector = split_vector;
        reserved = reserved;
      })
      s
