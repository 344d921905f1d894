-- ===== src/Carrier.antt =====
-- litenyx/LITENYX_galactic_carrier.h: the 49 bytes of the work carrier.
pub mod RoundTrip
mod Tests
use litenyx.Common.{ℕ, ◌+◌, ◌*◌, ◌/◌, ◌%◌, ◌^◌, List, [], ◌∷◌, ◌++◌, get_or, take, drop}
use litenyx.Common.Words.{le32}

abbrev pub gw_version_v1 : ℕ
gw_version_v1 = 1

abbrev pub gw_header_size : ℕ
gw_header_size = 49

abbrev pub gw_tag_leaf : List ℕ
gw_tag_leaf = 0x4C ∷ 0x69 ∷ 0x74 ∷ 0x4C ∷ []

abbrev pub gw_tag_node : List ℕ
gw_tag_node = 0x4C ∷ 0x69 ∷ 0x74 ∷ 0x4E ∷ []

pub record GalacticWorkHeader : Type 0 where
  pub version : ℕ  -- uint8
  pub protocol_domain : ℕ  -- uint32
  pub network_domain : ℕ  -- uint32
  pub commitment_root : List ℕ  -- 32 bytes
  pub nonce : ℕ  -- uint64

-- The eight bytes `(nonce >> 8 * i) & 0xFF`, lowest first.
abbrev pub le64 : ℕ → List ℕ
le64 v =
    v % 256
    ∷ v / 2 ^ 8 % 256
    ∷ v / 2 ^ 16 % 256
    ∷ v / 2 ^ 24 % 256
    ∷ v / 2 ^ 32 % 256
    ∷ v / 2 ^ 40 % 256
    ∷ v / 2 ^ 48 % 256
    ∷ v / 2 ^ 56 % 256
    ∷ []

-- The fields at their offsets 0, 1, 5, 9 and 41.
pub encode_gw : GalacticWorkHeader → List ℕ
encode_gw h =
    (h.version ∷ le32 h.protocol_domain ++ le32 h.network_domain)
    ++ (h.commitment_root ++ le64 h.nonce)

-- The bytes that `|=` puts together do not overlap.
abbrev pub at32 : List ℕ → ℕ → ℕ
at32 bytes i =
    get_or bytes i 0
    + get_or bytes (i + 1) 0 * 2 ^ 8
    + get_or bytes (i + 2) 0 * 2 ^ 16
    + get_or bytes (i + 3) 0 * 2 ^ 24

abbrev pub at64 : List ℕ → ℕ → ℕ
at64 bytes i = at32 bytes i + at32 bytes (i + 4) * 2 ^ 32

pub decode_gw : List ℕ → GalacticWorkHeader
decode_gw bytes = record {
  version = get_or bytes 0 0;
  protocol_domain = at32 bytes 1;
  network_domain = at32 bytes 5;
  commitment_root = take 32 (drop 9 bytes);
  nonce = at64 bytes 41;
}
