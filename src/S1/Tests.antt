-- ===== src/S1/Tests.antt =====
-- Runs of the candidate policies, and the theorems at concrete inputs.
use litenyx.Common.{◌≡◌, refl, [], ◌∷◌, arith, All, false}
use litenyx.Common.Int.{i64, pos, ◌≤ℤ◌}
use litenyx.S1.{
  p1_linear, EconParams, HysteresisState, wallet_deviation, phi_factor, recompute, compute_t_econ,
  effective_target, lane_reward, floor_div, lane_gross, lanes, evaluate_reward, CanonicalSnapshot,
}
use litenyx.S1.Target.{Within, t_econs, t_econs-Within}
use litenyx.S1.Monotone.{NoOverflow, compute_t_econ-mono}

abbrev linear : EconParams
linear = record {
  profile = p1_linear;
  t_ref = pos 500_000;
  t_min_cf = pos 1;
  t_max_cf = pos 1_000_000;
  k = pos 1_000_000;
  deadband = pos 0;
}

abbrev unset : HysteresisState
unset = record { last_t_econ = pos 1_000_000; initialized = false }

-- Half as many wallets again as the target: one and a half times the reference.
above_target : (compute_t_econ (pos 15) (pos 10) linear unset).0 ≡ pos 750_000
unfolding compute_t_econ wallet_deviation recompute phi_factor i64
above_target = refl

halves : (evaluate_reward (pos 100) 3 (pos 5 ∷ [])).g_c ≡ pos 105 ∷ pos 50 ∷ pos 25 ∷ []
unfolding evaluate_reward lanes lane_gross lane_reward floor_div
halves = refl

t_econs-Within_example :
    All
      (λ te.
        Within linear te
        × (effective_target (pos 700_000) te ≤ℤ pos 700_000)
        × (effective_target (pos 700_000) te ≤ℤ te))
      (t_econs ((pos 15, pos 10) ∷ (pos 5, pos 10) ∷ []) linear unset)
t_econs-Within_example =
    t_econs-Within ((pos 15, pos 10) ∷ (pos 5, pos 10) ∷ []) linear unset (pos 700_000)
      (omega arith) (λ h. absurd (cc))

below_NoOverflow : NoOverflow (pos 5) (pos 10) 1_000_000 500_000
below_NoOverflow = record {
  difference = (omega arith, omega arith);
  scaled = (omega arith, omega arith);
  slope = (omega arith, omega arith);
  factor = (omega arith, omega arith);
  target = (omega arith, omega arith);
}

above_NoOverflow : NoOverflow (pos 15) (pos 10) 1_000_000 500_000
above_NoOverflow = record {
  difference = (omega arith, omega arith);
  scaled = (omega arith, omega arith);
  slope = (omega arith, omega arith);
  factor = (omega arith, omega arith);
  target = (omega arith, omega arith);
}

compute_t_econ-mono_example :
    (compute_t_econ (pos 5) (pos 10) linear unset).0
    ≤ℤ (compute_t_econ (pos 15) (pos 10) linear unset).0
compute_t_econ-mono_example =
    compute_t_econ-mono (pos 5) (pos 15) (pos 10) linear unset unset 1_000_000 500_000 refl refl
      refl below_NoOverflow above_NoOverflow (omega arith)

abbrev snapshot : CanonicalSnapshot
snapshot = record {
  height = 1000;
  n = 3;
  last_transition = 400;
  p_t = pos 10;
  n_t = pos 4;
  w_t = pos 15;
  w_t_star = pos 10;
}
