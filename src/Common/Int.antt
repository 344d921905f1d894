-- ===== src/Common/Int.antt =====
-- Signed integers over the native numbers, for the source's int32_t and int64_t values.
use Prim.Native.Nat.{ℕ, zero, suc, ◌+◌, ◌-◌, ◌*◌, ◌/◌, ◌%◌, ◌^◌, ◌<◌, ◌≤◌}
use mathlib.Core.Path.{◌≡◌, ap, sym, ◌∙◌}
use native.Mathlib.Omega.{arith}
use mathlib.Core.Bool.{Bool}
use litenyx.Common.Tests.{ltb, leb, if◌then◌else◌}

-- `negsuc n` is -(n + 1).
pub data ℤ : Type 0 where
  pos : ℕ → ℤ
  negsuc : ℕ → ℤ

abbrev pub pos_part : ℤ → ℕ
pos_part (pos n) = n
pos_part (negsuc n) = 0

abbrev pub neg_part : ℤ → ℕ
neg_part (pos n) = 0
neg_part (negsuc n) = suc n

-- a - b, as an integer.
abbrev pub sub_ℕ : ℕ → ℕ → ℤ
sub_ℕ a b = if leb b a then pos (a - b) else negsuc (b - a - 1)

infixl 65 ◌+ℤ◌
infix 50 ◌≤ℤ◌
abbrev pub ◌+ℤ◌ : ℤ → ℤ → ℤ
a +ℤ b = sub_ℕ (pos_part a + pos_part b) (neg_part a + neg_part b)

abbrev pub ◌≤ℤ◌ : ℤ → ℤ → Type 0
a ≤ℤ b = pos_part a + neg_part b ≤ pos_part b + neg_part a

abbrev pub ltb_ℤ : ℤ → ℤ → Bool
ltb_ℤ a b = ltb (pos_part a + neg_part b) (pos_part b + neg_part a)

abbrev pub negate : ℕ → ℤ
negate zero = pos 0
negate (suc n) = negsuc n

-- C++ division by a positive number: it truncates towards zero.
abbrev pub div_trunc : ℤ → ℕ → ℤ
div_trunc (pos n) d = pos (n / d)
div_trunc (negsuc n) d = negate (suc n / d)

-- The signed integer of a fixed width, by half of its number of values, that a result wraps to.
abbrev pub signed : ℕ → ℤ → ℤ
signed half (pos n) =
    let m = n % (half * 2) in if ltb m half then pos m else negsuc (half * 2 - 1 - m)
signed half (negsuc n) =
    let m = n % (half * 2) in if ltb m half then negsuc m else pos (half * 2 - 1 - m)

unfoldable pub i32 : ℤ → ℤ
i32 z = signed (2 ^ 31) z

unfoldable pub i64 : ℤ → ℤ
i64 z = signed (2 ^ 63) z

abbrev pub IsI64 : ℤ → Type 0
IsI64 z = (pos_part z < 2 ^ 63) × (neg_part z ≤ 2 ^ 63)

pub i64_same : (z : ℤ) → IsI64 z → i64 z ≡ z
unfolding i64
i64_same (pos n) h = ground arith
i64_same (negsuc n) h = ground arith

pub i32_same : (n : ℕ) → n < 2 ^ 31 → i32 (pos n) ≡ pos n
unfolding i32
i32_same n h = ground arith

infixl 65 ◌-ℤ◌
abbrev pub ◌-ℤ◌ : ℤ → ℤ → ℤ
a -ℤ b = sub_ℕ (pos_part a + neg_part b) (neg_part a + pos_part b)

infixl 70 ◌*ℤ◌
abbrev pub ◌*ℤ◌ : ℤ → ℤ → ℤ
a *ℤ b =
    sub_ℕ (pos_part a * pos_part b + neg_part a * neg_part b)
      (pos_part a * neg_part b + neg_part a * pos_part b)

pub add_pos : (a b : ℕ) → pos a +ℤ pos b ≡ pos (a + b)
add_pos a b = ground arith

sub-add : (a b c d : ℕ) → sub_ℕ a b +ℤ sub_ℕ c d ≡ sub_ℕ (a + c) (b + d)
sub-add a b c d = ground arith

pub add_interchange : (a b c d : ℤ) → (a +ℤ b) +ℤ (c +ℤ d) ≡ (a +ℤ c) +ℤ (b +ℤ d)
add_interchange a b c d =
    let l =
      sub-add (pos_part a + pos_part b) (neg_part a + neg_part b) (pos_part c + pos_part d)
        (neg_part c + neg_part d) in
    let r =
      sub-add (pos_part a + pos_part c) (neg_part a + neg_part c) (pos_part b + pos_part d)
        (neg_part b + neg_part d) in
    let p : pos_part a + pos_part b + (pos_part c + pos_part d)
        ≡ pos_part a + pos_part c + (pos_part b + pos_part d) =
      omega arith in
    let q : neg_part a + neg_part b + (neg_part c + neg_part d)
        ≡ neg_part a + neg_part c + (neg_part b + neg_part d) =
      omega arith in
    l
    ∙ (ap (λ (x : ℕ). sub_ℕ x (neg_part a + neg_part b + (neg_part c + neg_part d))) p
        ∙ (ap (λ (x : ℕ). sub_ℕ (pos_part a + pos_part c + (pos_part b + pos_part d)) x) q ∙ sym r))
