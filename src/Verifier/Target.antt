-- ===== src/Verifier/Target.antt =====
-- `WorkHashLeTarget` against the order of the numbers that the bytes stand for.
use mathlib.Core.Path.{subst}
use native.Mathlib.Nat.{mul-le-mul_right, pow-suc}
use litenyx.Common.{
  ap, false, ℕ, ◌+◌, ◌*◌, ◌^◌, ◌≤◌, ◌<◌, ◌≡◌, ◌↔◌, refl, true, List, [], ◌∷◌, length, arith, ltb,
  All, Bool, if◌then◌else◌,
}
use litenyx.Common.Words.{IsU8}
use litenyx.Verifier.{work_hash_le_target}

-- The big-endian number of a byte string.
abbrev pub be_number : List ℕ → ℕ
be_number [] = 0
be_number (b ∷ bytes) = b * 256 ^ length bytes + be_number bytes

be_number-lt : (bytes : List ℕ) → All IsU8 bytes → be_number bytes < 256 ^ length bytes
be_number-lt [] h = omega arith
be_number-lt (b ∷ bytes) h =
    let p = 256 ^ length bytes in
    let m : (b + 1) * p ≤ 256 * p = mul-le-mul_right p (omega arith) in
    omega (arith, be_number-lt bytes h.1, m, pow-suc 256 (length bytes))

-- The leading bytes decide, and if they are equal the rest does.
leading :
    (w t p x y : ℕ) (rest : Bool)
    → x < p
    → y < p
    → (rest ≡ true) ↔ (x ≤ y)
    → ((if ltb w t then true else if ltb t w then false else rest) ≡ true) ↔ (w * p + x ≤ t * p + y)
leading w t p x y rest hx hy r =
    let a : w < t → w * p + p ≤ t * p =
      λ h. let m : (w + 1) * p ≤ t * p = mul-le-mul_right p (omega arith) in omega arith in
    let b : t < w → t * p + p ≤ w * p =
      λ h. let m : (t + 1) * p ≤ w * p = mul-le-mul_right p (omega arith) in omega arith in
    let c : w ≡ t → w * p ≡ t * p = λ e. ap (λ k. k * p) e in ground arith

-- For byte strings of one length, the comparison is the order of their big-endian numbers.
pub work_hash_le_target_iff :
    (work target : List ℕ)
    → length work ≡ length target
    → All IsU8 work
    → All IsU8 target
    → (work_hash_le_target work target ≡ true) ↔ (be_number work ≤ be_number target)
unfolding work_hash_le_target
work_hash_le_target_iff [] [] e hw ht = (λ _. omega arith, λ _. refl)
work_hash_le_target_iff [] (t ∷ target) e hw ht = absurd (omega arith)
work_hash_le_target_iff (w ∷ work) [] e hw ht = absurd (omega arith)
work_hash_le_target_iff (w ∷ work) (t ∷ target) e hw ht =
    let n : length target ≡ length work = omega arith in
    let (f, g) = work_hash_le_target_iff work target (omega arith) hw.1 ht.1 in
    let k =
      leading w t (256 ^ length work) (be_number work) (be_number target)
        (work_hash_le_target work target) (be_number-lt work hw.1)
        (subst (λ m. be_number target < 256 ^ m) n (be_number-lt target ht.1)) (f, g) in
    rw n k
