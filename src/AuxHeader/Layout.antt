-- ===== src/AuxHeader/Layout.antt =====
-- The wire formats of the auxiliary header: what each carries, and the bytes that it takes.
use litenyx.Common.{
  ℕ, zero, suc, ◌+◌, ◌*◌, ◌/◌, ◌%◌, ◌^◌, ◌≡◌, refl, ◌∙◌, ap, some, List, [], ◌∷◌, ◌++◌,
  if◌then◌else◌, length, take, drop, arith, length-append, Bool-cases, inl, inr,
}
use litenyx.Common.Words.{le32, IsU32, IsU64}
use mathlib.Core.List.{append_assoc}
use litenyx.AuxHeader.{
  AuxHeader, has_topology_commitment, has_lifecycle_commitment, has_drain_commitment, serialize,
  tail_v1, tail_v2, tail_v3, tail_v4, le64, read64, read256, read_topology, read_lifecycle,
  read_drain, read_tail, deserialize, ◌>>=◌,
}

-- Every field is within the width in which it is written.
pub record IsSized (a : AuxHeader) : Type 0 where
  pub magic : IsU32 a.magic
  pub chain_id : IsU32 a.chain_id
  pub event_height : IsU32 a.event_height
  pub aux_anchor : length a.aux_anchor ≡ 32
  pub split_vector : IsU64 a.split_vector
  pub reserved : IsU32 a.reserved
  pub topology_commitment : length a.topology_commitment ≡ 32
  pub lifecycle_commitment : length a.lifecycle_commitment ≡ 32
  pub drain_chain_id : IsU32 a.drain_chain_id
  pub drain_start_height : IsU32 a.drain_start_height

-- What the format of `a` carries, over the header that is read into.
abbrev pub carried : AuxHeader → AuxHeader → AuxHeader
carried a old = record a {
  topology_commitment =
      if has_topology_commitment a then a.topology_commitment else old.topology_commitment;
  lifecycle_commitment =
      if has_lifecycle_commitment a then a.lifecycle_commitment else old.lifecycle_commitment;
  drain_chain_id = if has_drain_commitment a then a.drain_chain_id else old.drain_chain_id;
  drain_start_height =
      if has_drain_commitment a then a.drain_start_height else old.drain_start_height;
}

-- The bytes that the format of a header takes.
abbrev pub wire_size : AuxHeader → ℕ
wire_size a =
    if has_drain_commitment a
    then 128
    else if has_lifecycle_commitment a
    then 120
    else if has_topology_commitment a
    then 88
    else 56

abbrev join32 : ℕ → ℕ
join32 v = v % 256 + v / 2 ^ 8 % 256 * 2 ^ 8 + v / 2 ^ 16 % 256 * 2 ^ 16 + v / 2 ^ 24 % 256 * 2 ^ 24

join32_lem : (v : ℕ) → IsU32 v → join32 v ≡ v
join32_lem v w = omega arith

join64_lem : (v : ℕ) → IsU64 v → join32 (v % 2 ^ 32) + join32 (v / 2 ^ 32) * 2 ^ 32 ≡ v
join64_lem v w =
    omega (arith, join32_lem (v % 2 ^ 32) (omega arith), join32_lem (v / 2 ^ 32) (omega arith))

take-append : (n : ℕ) (xs s : List ℕ) → length xs ≡ n → take n (xs ++ s) ≡ xs
take-append zero [] s e = refl
take-append zero (x ∷ xs) s e = absurd (omega arith)
take-append (suc n) [] s e = absurd (omega arith)
take-append (suc n) (x ∷ xs) s e = ap (λ l. x ∷ l) (take-append n xs s (omega arith))

drop-append : (n : ℕ) (xs s : List ℕ) → length xs ≡ n → drop n (xs ++ s) ≡ s
drop-append zero [] s e = refl
drop-append zero (x ∷ xs) s e = absurd (omega arith)
drop-append (suc n) [] s e = absurd (omega arith)
drop-append (suc n) (x ∷ xs) s e = drop-append n xs s (omega arith)

read256-append : (h s : List ℕ) → length h ≡ 32 → read256 (h ++ s) ≡ some (h, s)
read256-append h s e =
    let l = length-append h s in rw (take-append 32 h s e, drop-append 32 h s e) (ground arith)

read_topology-append :
    (a : AuxHeader) (c s : List ℕ)
    → length c ≡ 32
    → read_topology a ((if has_topology_commitment a then c else []) ++ s)
      ≡ some (
        record a {
          topology_commitment = if has_topology_commitment a then c else a.topology_commitment;
        },
        s,
      )
read_topology-append a c s w = elim (Bool-cases (has_topology_commitment a)) [
  | inl e ↦ rw (e, read256-append c s w) refl
  | inr e ↦ rw e refl
]

read_lifecycle-append :
    (a : AuxHeader) (c s : List ℕ)
    → length c ≡ 32
    → read_lifecycle a ((if has_lifecycle_commitment a then c else []) ++ s)
      ≡ some (
        record a {
          lifecycle_commitment = if has_lifecycle_commitment a then c else a.lifecycle_commitment;
        },
        s,
      )
read_lifecycle-append a c s w = elim (Bool-cases (has_lifecycle_commitment a)) [
  | inl e ↦ rw (e, read256-append c s w) refl
  | inr e ↦ rw e refl
]

read_drain-append :
    (a : AuxHeader) (c h : ℕ) (s : List ℕ)
    → IsU32 c
    → IsU32 h
    → read_drain a ((if has_drain_commitment a then le32 c ++ le32 h else []) ++ s)
      ≡ some (
        record a {
          drain_chain_id = if has_drain_commitment a then c else a.drain_chain_id;
          drain_start_height = if has_drain_commitment a then h else a.drain_start_height;
        },
        s,
      )
read_drain-append a c h s wc wh = elim (Bool-cases (has_drain_commitment a)) [
  | inl e ↦ rw (e, join32_lem c wc, join32_lem h wh) refl
  | inr e ↦ rw e refl
]

-- The header that is read into, with the fields of every format.
abbrev base : AuxHeader → AuxHeader → AuxHeader
base a old = record a {
  topology_commitment = old.topology_commitment;
  lifecycle_commitment = old.lifecycle_commitment;
  drain_chain_id = old.drain_chain_id;
  drain_start_height = old.drain_start_height;
}

abbrev with_topology : AuxHeader → AuxHeader → AuxHeader
with_topology a old = record (base a old) {
  topology_commitment =
      if has_topology_commitment a then a.topology_commitment else old.topology_commitment;
}

abbrev with_lifecycle : AuxHeader → AuxHeader → AuxHeader
with_lifecycle a old = record (with_topology a old) {
  lifecycle_commitment =
      if has_lifecycle_commitment a then a.lifecycle_commitment else old.lifecycle_commitment;
}

read_tail-append :
    (a old : AuxHeader) (rest : List ℕ)
    → IsSized a
    → read_tail (base a old) (tail_v2 a ++ rest) ≡ some (carried a old, rest)
read_tail-append a old rest w =
    let t = if has_topology_commitment a then a.topology_commitment else [] in
    let l = if has_lifecycle_commitment a then a.lifecycle_commitment else [] in
    ap (λ s. read_tail (base a old) s) (append_assoc t (tail_v3 a) rest)
    ∙ ap (λ o. o >>= (λ (b, s). read_lifecycle b s >>= (λ (c, s'). read_drain c s')))
        (read_topology-append (base a old) a.topology_commitment (tail_v3 a ++ rest)
          w.topology_commitment)
    ∙ ap (λ s. read_lifecycle (with_topology a old) s >>= (λ (c, s'). read_drain c s'))
        (append_assoc l (tail_v4 a) rest)
    ∙ ap (λ o. o >>= (λ (c, s'). read_drain c s'))
        (read_lifecycle-append (with_topology a old) a.lifecycle_commitment (tail_v4 a ++ rest)
          w.lifecycle_commitment)
    ∙ read_drain-append (with_lifecycle a old) a.drain_chain_id a.drain_start_height rest
        w.drain_chain_id w.drain_start_height

-- Reading the bytes of a header, whatever follows them, gives what its format carries of it, and
-- leaves what follows; the rest of the header that is read into stays as it was.
pub deserialize-serialize :
    (a old : AuxHeader) (rest : List ℕ)
    → IsSized a
    → deserialize old (serialize a ++ rest) ≡ some (carried a old, rest)
unfolding deserialize serialize le64 read64
deserialize-serialize a old rest w =
    rw
      (
        append_assoc a.aux_anchor (tail_v1 a) rest,
        read256-append a.aux_anchor (tail_v1 a ++ rest) w.aux_anchor,
        join32_lem a.magic w.magic,
        join32_lem a.chain_id w.chain_id,
        join32_lem a.event_height w.event_height,
        join64_lem a.split_vector w.split_vector,
        join32_lem a.reserved w.reserved,
      )
      (read_tail-append a old rest w)

-- The formats V0 and V1 take 56 bytes, V2 takes 88, V3 120 and V4 128.
pub length-serialize : (a : AuxHeader) → IsSized a → length (serialize a) ≡ wire_size a
unfolding serialize le64
length-serialize a w =
    let e = length-append a.aux_anchor (tail_v1 a) in
    let f =
      length-append (if has_topology_commitment a then a.topology_commitment else []) (tail_v3 a) in
    let g =
      length-append (if has_lifecycle_commitment a then a.lifecycle_commitment else [])
        (tail_v4 a) in
    ground (arith, w)
