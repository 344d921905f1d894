-- ===== src/SecurityFloor/Bounds.antt =====
-- The formulas for the least security and for the safety margin, over the fixed-point operations.
use native.Mathlib.Nat.{mul-div_cancel}
use litenyx.Common.{ℕ, ◌+◌, ◌-◌, ◌*◌, ◌/◌, ◌%◌, ◌^◌, ◌≤◌, ◌≡◌, ◌≢◌, min, arith, ap, ◌∙◌}
use litenyx.Common.Words.{IsU64}
use litenyx.FixedPoint.{
  Q64, q32, one, max_u32_32, max_u64_32, add32, sub32, mul32, mul64, div_to_q32,
}
use litenyx.FixedPoint.Saturate.{
  add32-min, mul64-min, mul32-wraps, div_to_q32-min, sub32_lem, clamp_q64_32-min, clamp_q32_32-min,
}
use litenyx.SecurityFloor.{BMinInput, calculate_b_min, AlphaInput, calculate_alpha}

-- The least security is V_T (1 - D) (1 + α), each of the two products floored and saturated at the
-- largest Q64.32, the sum saturated at the largest Q32.32, and the difference at zero.
pub calculate_b_min_lem :
    (i : BMinInput)
    → IsU64 i.alpha.bits
    → (calculate_b_min i).bits
      ≡ min
          (min (i.v_t.bits * (one - i.d_reversibility.bits) / 2 ^ 32) max_u64_32
            * min (one + i.alpha.bits) max_u32_32
            / 2 ^ 32)
          max_u64_32
unfolding calculate_b_min
calculate_b_min_lem i ha =
    let d = sub32 (q32 one) i.d_reversibility in
    let s = add32 (q32 one) i.alpha in
    let p = mul64 i.v_t d in
    let c = clamp_q64_32-min (mul64 p s) in
    let ep : p.bits ≡ min (i.v_t.bits * (one - i.d_reversibility.bits) / 2 ^ 32) max_u64_32 =
      mul64-min i.v_t d
      ∙ ap (λ x. min (i.v_t.bits * x / 2 ^ 32) max_u64_32)
          (sub32_lem (q32 one) i.d_reversibility) in
    let es : s.bits ≡ min (one + i.alpha.bits) max_u32_32 =
      add32-min (q32 one) i.alpha (omega arith) ha in
    let em : (mul64 p s).bits
        ≡ min
            (min (i.v_t.bits * (one - i.d_reversibility.bits) / 2 ^ 32) max_u64_32
              * min (one + i.alpha.bits) max_u32_32
              / 2 ^ 32)
            max_u64_32 =
      mul64-min p s
      ∙ ap (λ x. min (x * s.bits / 2 ^ 32) max_u64_32) ep
      ∙ ap
          (λ x.
            min (min (i.v_t.bits * (one - i.d_reversibility.bits) / 2 ^ 32) max_u64_32 * x / 2 ^ 32)
              max_u64_32)
          es in
    omega (arith, c, em)

-- A quotient of two Q64.32 with a known ratio.
ratio :
    (a b : Q64) (k : ℕ)
    → b.bits ≢ 0
    → a.bits ≡ k * b.bits
    → a.bits ≤ max_u64_32
    → k * 2 ^ 32 ≤ max_u32_32
    → (div_to_q32 a b).bits ≡ k * 2 ^ 32
ratio a b k n e l m =
    let q : a.bits * 2 ^ 32 / b.bits ≡ k * 2 ^ 32 =
      ap (λ x. x / b.bits) (rw e (omega arith))
      ∙ mul-div_cancel (k * 2 ^ 32) {n = b.bits} (omega arith) in
    omega (arith, (div_to_q32-min a b l).1 n, q)

-- The safety margin does not saturate: where the attackable hash rate is twice that of the network and
-- the value is 2^31 times the reward, its product wraps to zero.
pub alpha_vanishes :
    (i : AlphaInput)
    → i.h_network.bits ≢ 0
    → i.b_fork.bits ≢ 0
    → i.h_attackable.bits ≡ 2 * i.h_network.bits
    → i.v_t.bits ≡ 2 ^ 31 * i.b_fork.bits
    → i.h_attackable.bits ≤ max_u64_32
    → i.v_t.bits ≤ max_u64_32
    → (calculate_alpha i).bits ≡ 0
unfolding calculate_alpha
alpha_vanishes i hn bn eh ev lh lv =
    let h = div_to_q32 i.h_attackable i.h_network in
    let v = div_to_q32 i.v_t i.b_fork in
    let eh' : h.bits ≡ 2 ^ 33 = ratio i.h_attackable i.h_network 2 hn eh lh (omega arith) in
    let ev' : v.bits ≡ 2 ^ 63 = ratio i.v_t i.b_fork (2 ^ 31) bn ev lv (omega arith) in
    let em : (mul32 h v).bits ≡ 2 ^ 33 * 2 ^ 63 / 2 ^ 32 % 2 ^ 64 =
      mul32-wraps h v
      ∙ ap (λ x. x * v.bits / 2 ^ 32 % 2 ^ 64) eh'
      ∙ ap (λ x. 2 ^ 33 * x / 2 ^ 32 % 2 ^ 64) ev' in
    omega (arith, clamp_q32_32-min (mul32 h v), em)
