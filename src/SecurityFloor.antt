-- ===== src/SecurityFloor.antt =====
-- litenyx/LITENYX_security_floor.h: the chain from the shares of the producers to the least security
-- that a transfer needs, C_effective, H_attackable, α and B_min.
pub mod Bounds
mod Tests
use litenyx.Common.{ℕ, List, [], ◌∷◌}
use litenyx.FixedPoint.{
  Q32, Q64, q32, one, add32, sub32, mul32, mul64, div64, div_to_q32, clamp_q32_32, clamp_q64_32,
}

pub record CEffectiveInput : Type 0 where
  pub producer_shares : List Q32
  pub sybil_factor : Q32

-- The loop, with the sum so far.
pub sum_p_squared : Q32 → List Q32 → Q32
sum_p_squared sum [] = sum
sum_p_squared sum (p ∷ shares) = sum_p_squared (add32 sum (mul32 p p)) shares

pub calculate_c_effective : CEffectiveInput → Q32
calculate_c_effective i =
    clamp_q32_32 (mul32 (sum_p_squared (q32 0) i.producer_shares) (add32 (q32 one) i.sybil_factor))

pub record HAttackableInput : Type 0 where
  pub h_network : Q64
  pub c_effective : Q32
  pub outage : Q32
  pub efficiency : Q32

pub calculate_h_attackable : HAttackableInput → Q64
calculate_h_attackable i =
    clamp_q64_32
      (div64 (mul64 (mul64 i.h_network i.c_effective) (sub32 (q32 one) i.outage)) i.efficiency)

pub record AlphaInput : Type 0 where
  pub h_attackable : Q64
  pub h_network : Q64
  pub v_t : Q64
  pub b_fork : Q64

pub calculate_alpha : AlphaInput → Q32
calculate_alpha i =
    clamp_q32_32 (mul32 (div_to_q32 i.h_attackable i.h_network) (div_to_q32 i.v_t i.b_fork))

pub record BMinInput : Type 0 where
  pub v_t : Q64
  pub d_reversibility : Q32
  pub alpha : Q32

pub calculate_b_min : BMinInput → Q64
calculate_b_min i =
    clamp_q64_32 (mul64 (mul64 i.v_t (sub32 (q32 one) i.d_reversibility)) (add32 (q32 one) i.alpha))

pub record SecurityFloorInput : Type 0 where
  pub producer_shares : List Q32
  pub sybil_factor : Q32
  pub h_network : Q64
  pub outage : Q32
  pub efficiency : Q32
  pub v_t : Q64
  pub b_fork : Q64
  pub d_reversibility : Q32

pub record SecurityFloorResult : Type 0 where
  pub c_effective : Q32
  pub h_attackable : Q64
  pub alpha : Q32
  pub b_min : Q64

pub calculate_security_floor : SecurityFloorInput → SecurityFloorResult
calculate_security_floor i =
    let c =
      calculate_c_effective
        (record { producer_shares = i.producer_shares; sybil_factor = i.sybil_factor }) in
    let h = calculate_h_attackable (record {
      h_network = i.h_network;
      c_effective = c;
      outage = i.outage;
      efficiency = i.efficiency;
    }) in
    let a =
      calculate_alpha
        (record { h_attackable = h; h_network = i.h_network; v_t = i.v_t; b_fork = i.b_fork }) in
    record {
      c_effective = c;
      h_attackable = h;
      alpha = a;
      b_min =
          calculate_b_min (record { v_t = i.v_t; d_reversibility = i.d_reversibility; alpha = a });
    }
