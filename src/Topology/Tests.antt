-- ===== src/Topology/Tests.antt =====
-- Runs of the controller, and its theorems at concrete inputs.
use litenyx.Common.{◌+◌, ◌%◌, ◌≤◌, ◌<◌, ◌≡◌, ◌↔◌, refl, List, [], ◌∷◌, arith}
use litenyx.Common.Int.{pos, ◌≤ℤ◌}
use litenyx.Topology.{
  hold, split, ChainObservation, sum_m_c, aggregate_load, imbalance, imbalance_loop, clamp_chains,
  decide_by_load, in_cooldown, topo_decide, transition_height, topo_apply, obs_window, cooldown,
}
use litenyx.Topology.Decision.{CooldownOver, topo_decide_cases, aggregate_load_bounds}
use litenyx.Topology.Apply.{InRange, Follows, apply-decide, transition_height_bounds}

abbrev busy : List ChainObservation
busy = record { m_c = pos 90 } ∷ record { m_c = pos 95 } ∷ []

busy_splits : topo_decide busy 2 1000 0 ≡ split
unfolding topo_decide in_cooldown decide_by_load clamp_chains aggregate_load sum_m_c
busy_splits = refl

busy_waits : topo_decide busy 2 1000 900 ≡ hold
unfolding topo_decide in_cooldown
busy_waits = refl

spread_is_five : imbalance busy ≡ pos 5
unfolding imbalance imbalance_loop
spread_is_five = refl

height_rounds_up : transition_height 1050 ≡ 1300
unfolding transition_height
height_rounds_up = refl

topo_decide_cases_example :
    (topo_decide busy 2 1000 0 ≡ split)
    ↔ (CooldownOver 1000 0 × (pos 81 ≤ℤ aggregate_load busy) × (2 < 8))
topo_decide_cases_example = (topo_decide_cases busy 2 1000 0).0

apply-decide_example :
    Follows (topo_decide busy 2 1000 0) 2 (topo_apply 2 (topo_decide busy 2 1000 0))
    × InRange (topo_apply 2 (topo_decide busy 2 1000 0))
apply-decide_example = apply-decide busy 2 1000 0 (omega arith)

transition_height_bounds_example :
    (transition_height 1050 % obs_window ≡ 0)
    × (1050 + cooldown ≤ transition_height 1050)
    × (transition_height 1050 < 1050 + cooldown + obs_window)
transition_height_bounds_example = transition_height_bounds 1050 (omega arith)

aggregate_load_bounds_example : (pos 0 ≤ℤ aggregate_load busy) × (aggregate_load busy ≤ℤ pos 100)
aggregate_load_bounds_example = aggregate_load_bounds busy (omega arith)
