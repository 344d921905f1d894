-- ===== src/Carrier/RoundTrip.antt =====
-- `EncodeGW` and `DecodeGW`, one after the other.
use litenyx.Common.{
  ℕ, zero, suc, ◌+◌, ◌*◌, ◌/◌, ◌%◌, ◌^◌, ◌≤◌, ◌≡◌, refl, sym, ap, ◌∙◌, List, [], ◌∷◌, ◌++◌, length,
  get_or, take, drop, All, arith, length-drop, take-length,
}
use litenyx.Common.Words.{le32, IsU8, IsU32, IsU64}
use litenyx.Carrier.{GalacticWorkHeader, le64, encode_gw, decode_gw, at32, at64, gw_header_size}

pub record IsHeader (h : GalacticWorkHeader) : Type 0 where
  pub version : IsU8 h.version
  pub protocol_domain : IsU32 h.protocol_domain
  pub network_domain : IsU32 h.network_domain
  pub commitment_root : length h.commitment_root ≡ 32
  pub nonce : IsU64 h.nonce

abbrev pub IsBytes : List ℕ → Type 0
IsBytes = All IsU8

get_or-append : (xs ys : List ℕ) (i : ℕ) → get_or (xs ++ ys) (length xs + i) 0 ≡ get_or ys i 0
get_or-append [] ys i = ap (λ k. get_or ys k 0) (omega arith)
get_or-append (x ∷ xs) ys i =
    ap (λ k. get_or (x ∷ xs ++ ys) k 0) {y = suc (length xs + i)} (omega arith)
    ∙ get_or-append xs ys i

take-exact : (n : ℕ) (xs ys : List ℕ) → length xs ≡ n → take n (xs ++ ys) ≡ xs
take-exact zero [] ys e = refl
take-exact zero (x ∷ xs) ys e = absurd (omega arith)
take-exact (suc n) [] ys e = absurd (omega arith)
take-exact (suc n) (x ∷ xs) ys e = ap (λ l. x ∷ l) (take-exact n xs ys (omega arith))

get_or-exact :
    (n : ℕ) (xs ys : List ℕ) (i : ℕ) → length xs ≡ n → get_or (xs ++ ys) (n + i) 0 ≡ get_or ys i 0
get_or-exact n xs ys i e = ap (λ k. get_or (xs ++ ys) (k + i) 0) (sym e) ∙ get_or-append xs ys i

join32_lem :
    (v : ℕ)
    → IsU32 v
    → v % 256 + v / 2 ^ 8 % 256 * 2 ^ 8 + v / 2 ^ 16 % 256 * 2 ^ 16 + v / 2 ^ 24 % 256 * 2 ^ 24 ≡ v
join32_lem v w = omega arith

at64-le64 : (root : List ℕ) (v : ℕ) → length root ≡ 32 → IsU64 v → at64 (root ++ le64 v) 32 ≡ v
at64-le64 root v e w =
    let g = λ (i : ℕ). get_or-exact 32 root (le64 v) i e in
    rw (g 0, g 1, g 2, g 3, g 4, g 5, g 6, g 7) (omega arith)

decode-encode : (h : GalacticWorkHeader) → IsHeader h → decode_gw (encode_gw h) ≡ h
unfolding decode_gw encode_gw
decode-encode h w =
    rw
      (
        join32_lem h.protocol_domain w.protocol_domain,
        join32_lem h.network_domain w.network_domain,
        take-exact 32 h.commitment_root (le64 h.nonce) w.commitment_root,
      )
      (ap (λ n. record h { nonce = n })
        (at64-le64 h.commitment_root h.nonce w.commitment_root w.nonce))

-- The n bytes from an offset on.
slice : List ℕ → ℕ → ℕ → List ℕ
slice xs i zero = []
slice xs i (suc n) = get_or xs i 0 ∷ slice xs (i + 1) n

slice-cons : (x : ℕ) (xs : List ℕ) (i n : ℕ) → slice (x ∷ xs) (suc i) n ≡ slice xs i n
unfolding slice
slice-cons x xs i zero = refl
slice-cons x xs i (suc n) =
    ap (λ k. get_or xs i 0 ∷ slice (x ∷ xs) k n) {y = suc (i + 1)} (omega arith)
    ∙ ap (λ l. get_or xs i 0 ∷ l) (slice-cons x xs (i + 1) n)

slice-take : (xs : List ℕ) (i n : ℕ) → i + n ≤ length xs → slice xs i n ≡ take n (drop i xs)
unfolding slice
slice-take [] i zero h = refl
slice-take [] i (suc n) h = absurd (omega arith)
slice-take (x ∷ xs) (suc i) n h = slice-cons x xs i n ∙ slice-take xs i n (omega arith)
slice-take (x ∷ xs) zero zero h = refl
slice-take (x ∷ xs) zero (suc n) h =
    ap (λ l. x ∷ l) (slice-cons x xs 0 n ∙ slice-take xs 0 n (omega arith))

get_or-IsU8 : (xs : List ℕ) (i : ℕ) → IsBytes xs → IsU8 (get_or xs i 0)
get_or-IsU8 [] i b = omega arith
get_or-IsU8 (x ∷ xs) zero b = b.0
get_or-IsU8 (x ∷ xs) (suc i) b = get_or-IsU8 xs i b.1

take-drop : (n : ℕ) (xs : List ℕ) → take n xs ++ drop n xs ≡ xs
take-drop zero xs = refl
take-drop (suc n) [] = refl
take-drop (suc n) (x ∷ xs) = ap (λ l. x ∷ l) (take-drop n xs)

drop-nil : (n : ℕ) → drop {A = ℕ} n [] ≡ []
drop-nil zero = refl
drop-nil (suc n) = refl

drop-drop : (m n : ℕ) (xs : List ℕ) → drop m (drop n xs) ≡ drop (n + m) xs
drop-drop m n [] = ap (drop m) (drop-nil n) ∙ drop-nil m ∙ sym (drop-nil (n + m))
drop-drop m zero xs = ap (λ k. drop k xs) (omega arith)
drop-drop m (suc n) (x ∷ xs) =
    drop-drop m n xs ∙ ap (λ k. drop k (x ∷ xs)) {x = suc (n + m)} (omega arith)

le32-join :
    (a b c d : ℕ)
    → IsU8 a
    → IsU8 b
    → IsU8 c
    → IsU8 d
    → le32 (a + b * 2 ^ 8 + c * 2 ^ 16 + d * 2 ^ 24) ≡ a ∷ b ∷ c ∷ d ∷ []
le32-join a b c d wa wb wc wd =
    let v = a + b * 2 ^ 8 + c * 2 ^ 16 + d * 2 ^ 24 in
    let e0 : v % 256 ≡ a = omega arith in
    let e1 : v / 2 ^ 8 % 256 ≡ b = omega arith in
    let e2 : v / 2 ^ 16 % 256 ≡ c = omega arith in let e3 : v / 2 ^ 24 % 256 ≡ d = omega arith in cc

le64-split : (lo hi : ℕ) → IsU32 lo → IsU32 hi → le64 (lo + hi * 2 ^ 32) ≡ le32 lo ++ le32 hi
le64-split lo hi wl wh =
    let v = lo + hi * 2 ^ 32 in
    let e0 : v % 256 ≡ lo % 256 = omega arith in
    let e1 : v / 2 ^ 8 % 256 ≡ lo / 2 ^ 8 % 256 = omega arith in
    let e2 : v / 2 ^ 16 % 256 ≡ lo / 2 ^ 16 % 256 = omega arith in
    let e3 : v / 2 ^ 24 % 256 ≡ lo / 2 ^ 24 % 256 = omega arith in
    let e4 : v / 2 ^ 32 % 256 ≡ hi % 256 = omega arith in
    let e5 : v / 2 ^ 40 % 256 ≡ hi / 2 ^ 8 % 256 = omega arith in
    let e6 : v / 2 ^ 48 % 256 ≡ hi / 2 ^ 16 % 256 = omega arith in
    let e7 : v / 2 ^ 56 % 256 ≡ hi / 2 ^ 24 % 256 = omega arith in cc

module _ (bytes : List ℕ) (b : IsBytes bytes) where
  at : (i : ℕ) → IsU8 (get_or bytes i 0)
  at i = get_or-IsU8 bytes i b

  le32-at32 :
      (i : ℕ)
      → le32 (at32 bytes i)
        ≡ get_or bytes i 0
          ∷ get_or bytes (i + 1) 0
          ∷ get_or bytes (i + 2) 0
          ∷ get_or bytes (i + 3) 0
          ∷ []
  le32-at32 i = le32-join _ _ _ _ (at i) (at (i + 1)) (at (i + 2)) (at (i + 3))

  at32-IsU32 : (i : ℕ) → IsU32 (at32 bytes i)
  at32-IsU32 i = omega (arith, at i, at (i + 1), at (i + 2), at (i + 3))

  encode_slices :
      encode_gw (decode_gw bytes) ≡ slice bytes 0 9 ++ (take 32 (drop 9 bytes) ++ slice bytes 41 8)
  unfolding encode_gw decode_gw slice
  encode_slices =
      let e = le64-split (at32 bytes 41) (at32 bytes 45) (at32-IsU32 41) (at32-IsU32 45) in
      let v = get_or bytes 0 0 in
      let root = take 32 (drop 9 bytes) in
      ap (λ a. (v ∷ a ++ le32 (at32 bytes 5)) ++ (root ++ le64 (at64 bytes 41))) (le32-at32 1)
      ∙ ap (λ a. (v ∷ slice bytes 1 4 ++ a) ++ (root ++ le64 (at64 bytes 41))) (le32-at32 5)
      ∙ ap (λ a. slice bytes 0 9 ++ (root ++ a))
          (e
            ∙ ap (λ a. a ++ le32 (at32 bytes 45)) (le32-at32 41)
            ∙ ap (λ a. slice bytes 41 4 ++ a) (le32-at32 45))

-- Decoding what was encoded gives every field back, and encoding what was decoded gives the 49 bytes.
pub encode-decode :
    (h : GalacticWorkHeader) (bytes : List ℕ)
    → IsHeader h
    → length bytes ≡ gw_header_size
    → IsBytes bytes
    → (decode_gw (encode_gw h) ≡ h) × (encode_gw (decode_gw bytes) ≡ bytes)
encode-decode h bytes w l b =
    let rest = drop 9 bytes in
    let n = length-drop 41 bytes in
    let whole : take 8 (drop 41 bytes) ≡ drop 32 rest =
      take-length 8 (drop 41 bytes) (omega arith) ∙ sym (drop-drop 32 9 bytes) in
    (
      decode-encode h w,
      encode_slices bytes b
          ∙ ap (λ s. s ++ (take 32 rest ++ slice bytes 41 8)) (slice-take bytes 0 9 (omega arith))
          ∙ ap (λ s. take 9 bytes ++ (take 32 rest ++ s))
              (slice-take bytes 41 8 (omega arith) ∙ whole)
          ∙ ap (λ s. take 9 bytes ++ s) (take-drop 32 rest)
          ∙ take-drop 9 bytes,
    )
