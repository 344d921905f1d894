-- ===== src/SecurityFloor/Tests.antt =====
-- The security floor at concrete numbers.
use litenyx.Common.{◌+◌, ◌-◌, ◌*◌, ◌/◌, ◌^◌, ◌≡◌, min, refl, arith}
use litenyx.FixedPoint.{q32, q64, one, max_u32_32, max_u64_32}
use litenyx.SecurityFloor.{BMinInput, calculate_b_min, AlphaInput, calculate_alpha}
use litenyx.SecurityFloor.Bounds.{calculate_b_min_lem, alpha_vanishes}

abbrev transfer : BMinInput
transfer = record {
  v_t = q64 (1000 * 2 ^ 32);
  d_reversibility = q32 (2 ^ 31);
  alpha = q32 (2 ^ 32);
}

calculate_b_min_lem_example :
    (calculate_b_min transfer).bits
    ≡ min
        (min (1000 * 2 ^ 32 * (one - 2 ^ 31) / 2 ^ 32) max_u64_32
          * min (one + 2 ^ 32) max_u32_32
          / 2 ^ 32)
        max_u64_32
calculate_b_min_lem_example = calculate_b_min_lem transfer (omega arith)

abbrev large_value : AlphaInput
large_value = record {
  h_attackable = q64 (20 * 2 ^ 32);
  h_network = q64 (10 * 2 ^ 32);
  v_t = q64 (2 ^ 31 * 2 ^ 32);
  b_fork = q64 (2 ^ 32);
}

alpha_vanishes_example : (calculate_alpha large_value).bits ≡ 0
alpha_vanishes_example =
    alpha_vanishes large_value (λ e. omega arith) (λ e. omega arith) refl refl (omega arith)
      (omega arith)
