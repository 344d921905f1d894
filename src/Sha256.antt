-- ===== src/Sha256.antt =====
-- The self-contained double SHA-256 of litenyx/LITENYX_topology_authority.h. A byte and a 32-bit word
-- are numbers; `buf` holds the `idx` bytes of the block that is not yet full.
pub mod Stream
mod Tests
use Prim.Native.Nat.{bit_and, bit_or, bit_xor}
use litenyx.Common.{
  ℕ, zero, suc, ◌+◌, ◌-◌, ◌*◌, ◌/◌, ◌%◌, ◌^◌, Bool, true, false, List, [], ◌∷◌, ◌++◌, ◌==◌,
  if◌then◌else◌, length, get_or, take, drop, min,
}
use litenyx.Common.Words.{u8, u32, u64, u32_max}

pub record Sha256Ctx : Type 0 where
  pub s : List ℕ  -- uint32[8]
  pub len : ℕ  -- uint64, in bits
  pub buf : List ℕ  -- the first idx of 64 bytes

abbrev rotr : ℕ → ℕ → ℕ
rotr x n = u32 (bit_or (x / 2 ^ n) (x * 2 ^ (32 - n)))

abbrev xor3 : ℕ → ℕ → ℕ → ℕ
xor3 a b c = bit_xor (bit_xor a b) c

abbrev pub sha256_init : Sha256Ctx
sha256_init = record {
  s =
      0x6a09e667 ∷ 0xbb67ae85 ∷ 0x3c6ef372 ∷ 0xa54ff53a ∷ 0x510e527f ∷ 0x9b05688c ∷ 0x1f83d9ab
      ∷ 0x5be0cd19 ∷ [];
  len = 0;
  buf = [];
}

abbrev round_constants : List ℕ
round_constants =
    0x428a2f98 ∷ 0x71374491 ∷ 0xb5c0fbcf ∷ 0xe9b5dba5 ∷ 0x3956c25b ∷ 0x59f111f1 ∷ 0x923f82a4
    ∷ 0xab1c5ed5 ∷ 0xd807aa98 ∷ 0x12835b01 ∷ 0x243185be ∷ 0x550c7dc3 ∷ 0x72be5d74 ∷ 0x80deb1fe
    ∷ 0x9bdc06a7 ∷ 0xc19bf174 ∷ 0xe49b69c1 ∷ 0xefbe4786 ∷ 0x0fc19dc6 ∷ 0x240ca1cc ∷ 0x2de92c6f
    ∷ 0x4a7484aa ∷ 0x5cb0a9dc ∷ 0x76f988da ∷ 0x983e5152 ∷ 0xa831c66d ∷ 0xb00327c8 ∷ 0xbf597fc7
    ∷ 0xc6e00bf3 ∷ 0xd5a79147 ∷ 0x06ca6351 ∷ 0x14292967 ∷ 0x27b70a85 ∷ 0x2e1b2138 ∷ 0x4d2c6dfc
    ∷ 0x53380d13 ∷ 0x650a7354 ∷ 0x766a0abb ∷ 0x81c2c92e ∷ 0x92722c85 ∷ 0xa2bfe8a1 ∷ 0xa81a664b
    ∷ 0xc24b8b70 ∷ 0xc76c51a3 ∷ 0xd192e819 ∷ 0xd6990624 ∷ 0xf40e3585 ∷ 0x106aa070 ∷ 0x19a4c116
    ∷ 0x1e376c08 ∷ 0x2748774c ∷ 0x34b0bcb5 ∷ 0x391c0cb3 ∷ 0x4ed8aa4a ∷ 0x5b9cca4f ∷ 0x682e6ff3
    ∷ 0x748f82ee ∷ 0x78a5636f ∷ 0x84c87814 ∷ 0x8cc70208 ∷ 0x90befffa ∷ 0xa4506ceb ∷ 0xbef9a3f7
    ∷ 0xc67178f2 ∷ []

-- The first 16 words of the schedule, read highest byte first.
load_words : List ℕ → List ℕ
load_words (a ∷ b ∷ c ∷ d ∷ p) = (a * 2 ^ 24 + b * 2 ^ 16 + c * 2 ^ 8 + d) ∷ load_words p
load_words _ = []

-- for (i = 16; i < 64; ++i) w[i] = ..., by the rounds left.
extend_words : ℕ → ℕ → List ℕ → List ℕ
extend_words zero i w = w
extend_words (suc rounds) i w =
    let a = get_or w (i - 15) 0 in
    let b = get_or w (i - 2) 0 in
    let s0 = xor3 (rotr a 7) (rotr a 18) (a / 2 ^ 3) in
    let s1 = xor3 (rotr b 17) (rotr b 19) (b / 2 ^ 10) in
    extend_words rounds (i + 1) (w ++ u32 (get_or w (i - 16) 0 + s0 + get_or w (i - 7) 0 + s1) ∷ [])

-- The eight working variables; `c'` is the source's `cc`.
record Working : Type 0 where
  a : ℕ
  b : ℕ
  cc : ℕ
  d : ℕ
  e : ℕ
  f : ℕ
  g : ℕ
  h : ℕ

sha_round : Working → ℕ → ℕ → Working
sha_round v k w =
    let s1 = xor3 (rotr v.e 6) (rotr v.e 11) (rotr v.e 25) in
    let ch = bit_xor (bit_and v.e v.f) (bit_and (u32_max - v.e) v.g) in
    let t1 = u32 (v.h + s1 + ch + k + w) in
    let s0 = xor3 (rotr v.a 2) (rotr v.a 13) (rotr v.a 22) in
    let maj = xor3 (bit_and v.a v.b) (bit_and v.a v.cc) (bit_and v.b v.cc) in
    let t2 = u32 (s0 + maj) in
    record {
      a = u32 (t1 + t2);
      b = v.a;
      cc = v.b;
      d = v.cc;
      e = u32 (v.d + t1);
      f = v.e;
      g = v.f;
      h = v.g;
    }

sha_rounds : List ℕ → List ℕ → Working → Working
sha_rounds (k ∷ ks) (w ∷ ws) v = sha_rounds ks ws (sha_round v k w)
sha_rounds _ _ v = v

add_words : List ℕ → List ℕ → List ℕ
add_words (x ∷ xs) (y ∷ ys) = u32 (x + y) ∷ add_words xs ys
add_words _ _ = []

pub sha256_block : List ℕ → List ℕ → List ℕ
unfolding load_words extend_words sha_rounds sha_round add_words
sha256_block s p =
    let w = extend_words 48 16 (load_words p) in
    let v = sha_rounds round_constants w (record {
      a = get_or s 0 0;
      b = get_or s 1 0;
      cc = get_or s 2 0;
      d = get_or s 3 0;
      e = get_or s 4 0;
      f = get_or s 5 0;
      g = get_or s 6 0;
      h = get_or s 7 0;
    }) in
    add_words s (v.a ∷ v.b ∷ v.cc ∷ v.d ∷ v.e ∷ v.f ∷ v.g ∷ v.h ∷ [])

-- One copy into the buffer, and the block function if that fills it.
pub absorb : Sha256Ctx → List ℕ → Sha256Ctx
absorb c chunk =
    let buf = c.buf ++ chunk in
    if length buf == 64
    then record c { s = sha256_block c.s buf; buf = [] }
    else record c { buf = buf }

-- while (n) { ... }, on fuel: each round copies at least one byte, so `length p` rounds are enough.
pub update_loop : ℕ → Sha256Ctx → List ℕ → Sha256Ctx
update_loop fuel c [] = c
update_loop zero c (b ∷ p) = c
update_loop (suc fuel) c (b ∷ p) =
    let n = min (64 - length c.buf) (length (b ∷ p)) in
    update_loop fuel (absorb c (take n (b ∷ p))) (drop n (b ∷ p))

pub sha256_update : Sha256Ctx → List ℕ → Sha256Ctx
sha256_update c p = update_loop (length p) (record c { len = u64 (c.len + length p * 8) }) p

-- while (c.idx != 56) sha256_update(c, &zero, 1), on fuel.
pub pad_loop : ℕ → Sha256Ctx → Sha256Ctx
pad_loop zero c = c
pad_loop (suc fuel) c = elim (length c.buf == 56) [
  | true ↦ c
  | false ↦ pad_loop fuel (sha256_update c (0 ∷ []))
]

-- The big-endian bytes of a word, and of the words of the state.
be32 : ℕ → List ℕ
be32 v = v / 2 ^ 24 % 256 ∷ v / 2 ^ 16 % 256 ∷ v / 2 ^ 8 % 256 ∷ v % 256 ∷ []

be_words : List ℕ → List ℕ
be_words [] = []
be_words (w ∷ ws) = be32 w ++ be_words ws

pub sha256_final : Sha256Ctx → List ℕ
unfolding be32 be_words
sha256_final c =
    let bits = c.len in
    let padded = pad_loop 64 (sha256_update c (0x80 ∷ [])) in
    be_words (sha256_update padded (be32 (bits / 2 ^ 32) ++ be32 (bits % 2 ^ 32))).s

pub sha256 : List ℕ → List ℕ
sha256 p = sha256_final (sha256_update sha256_init p)

pub double_sha256 : List ℕ → List ℕ
double_sha256 p = sha256 (sha256 p)
