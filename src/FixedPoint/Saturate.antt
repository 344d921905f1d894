-- ===== src/FixedPoint/Saturate.antt =====
-- The operations of litenyx/LITENYX_fixed_point.h against exact arithmetic.
use litenyx.Common.{
  ℕ, ◌+◌, ◌-◌, ◌*◌, ◌/◌, ◌%◌, ◌^◌, ◌≤◌, ◌≡◌, ◌≢◌, ◌↔◌, min, arith, ltb, ◌==◌, if◌then◌else◌,
  Bool-cases, inl, inr,
}
use native.Mathlib.Nat.{le-div_iff_mul-le}
use litenyx.Common.Words.{IsU64}
use litenyx.FixedPoint.{
  Q32, Q64, max_u32_32, max_u64_32, u128, clamp64, add32, sub32, mul32, mul64, div_to_q32,
  clamp_q64_32, clamp_q32_32,
}

abbrev max_u128 : ℕ
max_u128 = 2 ^ 128 - 1

-- The branches of the product, over the product `p` and the quotient `d` of the overflow test.
product_branches :
    (a b p d : ℕ)
    → (b ≡ 0 → p ≡ 0)
    → (1 ≤ b → (a ≤ d) ↔ (p ≤ max_u128))
    → (if b == 0 then 0 else if ltb d a then max_u64_32 else clamp64 (u128 p / 2 ^ 32))
      ≡ min (p / 2 ^ 32) max_u64_32
product_branches a b p d z q = ground arith

-- Adding two Q32.32 saturates.
pub add32-min :
    (a b : Q32) → IsU64 a.bits → IsU64 b.bits → (add32 a b).bits ≡ min (a.bits + b.bits) max_u32_32
unfolding add32
add32-min a b ha hb = ground arith

-- Multiplying a Q64.32 by a Q32.32 gives the floor of the exact product, saturated
-- at the largest Q64.32.
pub mul64-min : (a : Q64) (b : Q32) → (mul64 a b).bits ≡ min (a.bits * b.bits / 2 ^ 32) max_u64_32
unfolding mul64
mul64-min a b =
    product_branches a.bits b.bits (a.bits * b.bits) (max_u128 / b.bits) (λ e. rw e (omega arith))
      (λ h. le-div_iff_mul-le h)

-- Multiplying two Q32.32 does not saturate: the floor of the exact product is taken modulo 2^64.
pub mul32-wraps : (a b : Q32) → (mul32 a b).bits ≡ a.bits * b.bits / 2 ^ 32 % 2 ^ 64
unfolding mul32
mul32-wraps a b = omega arith

-- A quotient of two Q64.32 saturates at the largest Q32.32, and division by zero gives that value.
pub div_to_q32-min :
    (a b : Q64)
    → a.bits ≤ max_u64_32
    → (b.bits ≡ 0 → (div_to_q32 a b).bits ≡ max_u32_32)
      × (b.bits ≢ 0 → (div_to_q32 a b).bits ≡ min (a.bits * 2 ^ 32 / b.bits) max_u32_32)
unfolding div_to_q32
div_to_q32-min a b ha =
    let u : u128 (a.bits * 2 ^ 32) ≡ a.bits * 2 ^ 32 = omega arith in rw u (ground arith)

pub sub32_lem : (a b : Q32) → (sub32 a b).bits ≡ a.bits - b.bits
unfolding sub32
sub32_lem a b = ground arith

pub clamp_q64_32-min : (q : Q64) → (clamp_q64_32 q).bits ≡ min q.bits max_u64_32
unfolding clamp_q64_32
clamp_q64_32-min q = elim (Bool-cases (ltb max_u64_32 q.bits)) [
  | inl e ↦ rw e (ground arith)
  | inr e ↦ rw e (ground arith)
]

pub clamp_q32_32-min : (q : Q32) → (clamp_q32_32 q).bits ≡ min q.bits max_u32_32
unfolding clamp_q32_32
clamp_q32_32-min q = elim (Bool-cases (ltb max_u32_32 q.bits)) [
  | inl e ↦ rw e (ground arith)
  | inr e ↦ rw e (ground arith)
]
