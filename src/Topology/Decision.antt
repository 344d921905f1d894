-- ===== src/Topology/Decision.antt =====
-- When `LitenyxTopoDecide` splits and merges, and the range of the load that it reads.
use litenyx.Common.{ℕ, suc, ◌+◌, ◌*◌, ◌≤◌, ◌<◌, ◌≡◌, ◌↔◌, ◌⊎◌, List, [], ◌∷◌, arith, length, All}
use litenyx.Common.Int.{ℤ, pos, negsuc, div_trunc, ◌≤ℤ◌, pos_part, neg_part}
use litenyx.Topology.{
  split, merge, ChainObservation, sum_m_c, aggregate_load, clamp_chains, decide_by_load,
  in_cooldown, topo_decide, topo_max_chains, cooldown, hyst_high, hyst_low,
}
use litenyx.Params.{min_chains}

-- No transition is recorded, or the last one lies at least the cooldown back.
abbrev pub CooldownOver : ℕ → ℕ → Type 0
CooldownOver h_obs last = (last ≡ 0) ⊎ (last + cooldown ≤ h_obs)

-- The controller splits exactly when the cooldown is over, the load is above 80 and a lane is free;
-- it merges exactly when the cooldown is over, the load is below 20 and more than two chains run.
pub topo_decide_cases :
    (obs : List ChainObservation) (n h_obs last : ℕ)
    → ((topo_decide obs n h_obs last ≡ split) ↔ (
        CooldownOver h_obs last
        × (pos (suc hyst_high) ≤ℤ aggregate_load obs)
        × (n < topo_max_chains)))
      × ((topo_decide obs n h_obs last ≡ merge) ↔ (
          CooldownOver h_obs last
          × (suc (pos_part (aggregate_load obs)) ≤ hyst_low + neg_part (aggregate_load obs))
          × (min_chains < n)))
unfolding topo_decide in_cooldown decide_by_load clamp_chains
topo_decide_cases obs n h_obs last = ground arith

abbrev pub IsPressure : ChainObservation → Type 0
IsPressure o = (pos 0 ≤ℤ o.m_c) × (o.m_c ≤ℤ pos 100)

sum_m_c_bounds :
    (obs : List ChainObservation)
    → All IsPressure obs
    → (pos 0 ≤ℤ sum_m_c obs) × (sum_m_c obs ≤ℤ pos (100 * length obs))
unfolding sum_m_c
sum_m_c_bounds [] h = omega arith
sum_m_c_bounds (o ∷ obs) h = ground (arith, sum_m_c_bounds obs h.1)

mean_bounds :
    (s : ℤ) (k : ℕ)
    → pos 0 ≤ℤ s
    → s ≤ℤ pos (100 * suc k)
    → (pos 0 ≤ℤ div_trunc s (suc k)) × (div_trunc s (suc k) ≤ℤ pos 100)
mean_bounds (pos n) k lo hi = grind arith
mean_bounds (negsuc n) k lo hi = absurd (omega arith)

-- The load of pressures between 0 and 100 lies between 0 and 100, for any number of chains.
pub aggregate_load_bounds :
    (obs : List ChainObservation)
    → All IsPressure obs
    → (pos 0 ≤ℤ aggregate_load obs) × (aggregate_load obs ≤ℤ pos 100)
unfolding aggregate_load
aggregate_load_bounds [] h = omega arith
aggregate_load_bounds (o ∷ obs) h =
    let (lo, hi) = sum_m_c_bounds (o ∷ obs) h in mean_bounds (sum_m_c (o ∷ obs)) (length obs) lo hi
