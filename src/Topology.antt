-- ===== src/Topology.antt =====
-- litenyx/LITENYX_topology.h: the pure split/merge controller. The chain counts and heights are
-- unsigned words with their wrap-around written out; a demand pressure is a signed integer.
pub mod Decision
pub mod Apply
mod Tests
use litenyx.Common.{
  ℕ, suc, ◌+◌, ◌-◌, ◌%◌, Bool, not, ◌&&◌, List, [], ◌∷◌, ltb, leb, ◌==◌, if◌then◌else◌, length,
}
use litenyx.Common.Int.{ℤ, pos, ltb_ℤ, sub_ℕ, ◌+ℤ◌, neg_part, pos_part, div_trunc}
use litenyx.Common.Words.{u8, u32}
use litenyx.Params.{min_chains}

abbrev pub topo_max_chains : ℕ
topo_max_chains = 8

abbrev pub obs_window : ℕ
obs_window = 100

abbrev pub cooldown : ℕ
cooldown = 200

abbrev pub hyst_high : ℕ
hyst_high = 80

abbrev pub hyst_low : ℕ
hyst_low = 20

pub data TopoDecision : Type 0 where
  hold split merge : TopoDecision

pub record ChainObservation : Type 0 where
  pub m_c : ℤ

unfoldable pub sum_m_c : List ChainObservation → ℤ
sum_m_c [] = pos 0
sum_m_c (o ∷ obs) = o.m_c +ℤ sum_m_c obs

-- The mean, truncated towards zero as C++ divides.
unfoldable pub aggregate_load : List ChainObservation → ℤ
aggregate_load [] = pos 0
aggregate_load (o ∷ obs) = div_trunc (sum_m_c (o ∷ obs)) (length (o ∷ obs))

abbrev min_ℤ : ℤ → ℤ → ℤ
min_ℤ a b = if ltb_ℤ b a then b else a

abbrev max_ℤ : ℤ → ℤ → ℤ
max_ℤ a b = if ltb_ℤ a b then b else a

-- The loop of `LitenyxTopoImbalance` over the running minimum and maximum.
pub imbalance_loop : ℤ → ℤ → List ChainObservation → ℤ
imbalance_loop lo hi [] = sub_ℕ (pos_part hi + neg_part lo) (pos_part lo + neg_part hi)
imbalance_loop lo hi (o ∷ obs) = imbalance_loop (min_ℤ lo o.m_c) (max_ℤ hi o.m_c) obs

pub imbalance : List ChainObservation → ℤ
imbalance [] = pos 0
imbalance (o ∷ obs) = imbalance_loop o.m_c o.m_c (o ∷ obs)

unfoldable pub clamp_chains : ℕ → ℕ
clamp_chains n =
    if ltb n min_chains then min_chains else if ltb topo_max_chains n then topo_max_chains else n

-- The two hysteresis tests on the load, after the clamp and the cooldown.
unfoldable pub decide_by_load : ℤ → ℕ → TopoDecision
decide_by_load a n =
    if ltb_ℤ (pos hyst_high) a && ltb n topo_max_chains
    then split
    else if ltb_ℤ a (pos hyst_low) && ltb min_chains n
    then merge
    else hold

-- `since` is a signed difference: a transition height may lie above `h_obs`.
unfoldable pub in_cooldown : ℕ → ℕ → Bool
in_cooldown h_obs last_transition =
    not (last_transition == 0) && ltb_ℤ (sub_ℕ h_obs last_transition) (pos cooldown)

unfoldable pub topo_decide : List ChainObservation → ℕ → ℕ → ℕ → TopoDecision
topo_decide obs n h_obs last_transition =
    if in_cooldown h_obs last_transition
    then hold
    else decide_by_load (aggregate_load obs) (clamp_chains n)

-- Rounds `candidate` up to the next multiple of the window.
pub round_up : ℕ → ℕ
round_up candidate =
    let rem = candidate % obs_window in
    if rem == 0 then candidate else u32 (candidate + (obs_window - rem))

unfoldable pub transition_height : ℕ → ℕ
unfolding round_up
transition_height h_obs = round_up (u32 (h_obs + cooldown))

apply_split : ℕ → ℕ
apply_split n = if ltb n topo_max_chains then u8 (n + 1) else n

apply_merge : ℕ → ℕ
apply_merge n = if ltb min_chains n then n - 1 else n

unfoldable pub topo_apply : ℕ → TopoDecision → ℕ
unfolding apply_split apply_merge
topo_apply n hold = n
topo_apply n split = apply_split n
topo_apply n merge = apply_merge n
