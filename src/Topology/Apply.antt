-- ===== src/Topology/Apply.antt =====
-- What a decision does to the chain count, and where a transition is placed.
use litenyx.Common.{ℕ, ◌+◌, ◌%◌, ◌^◌, ◌≤◌, ◌<◌, ◌≡◌, List, arith}
use litenyx.Topology.{
  TopoDecision, hold, split, merge, ChainObservation, decide_by_load, in_cooldown, clamp_chains,
  topo_decide, topo_apply, transition_height, topo_max_chains, obs_window, cooldown,
}
use litenyx.Params.{min_chains}

abbrev pub InRange : ℕ → Type 0
InRange n = (min_chains ≤ n) × (n ≤ topo_max_chains)

-- `m` is the chain count after a decision at `n`.
abbrev pub Follows : TopoDecision → ℕ → ℕ → Type 0
Follows hold n m = m ≡ n
Follows split n m = m ≡ n + 1
Follows merge n m = n ≡ m + 1

-- The decision that the controller takes at a count in range is carried out in full: the count
-- moves by one in its direction, or stays, and remains between 2 and 8.
pub apply-decide :
    (obs : List ChainObservation) (n h_obs last : ℕ)
    → InRange n
    → Follows (topo_decide obs n h_obs last) n (topo_apply n (topo_decide obs n h_obs last))
      × InRange (topo_apply n (topo_decide obs n h_obs last))
unfolding topo_decide in_cooldown decide_by_load clamp_chains topo_apply
apply-decide obs n h_obs last h = ground arith

-- Any decision at all, also one taken at another count, keeps the count between 2 and 8.
pub topo_apply-InRange : (n : ℕ) (d : TopoDecision) → InRange n → InRange (topo_apply n d)
unfolding topo_apply
topo_apply-InRange n hold h = h
topo_apply-InRange n split h = ground arith
topo_apply-InRange n merge h = ground arith

-- Below the end of the 32-bit range, the transition height is the first window boundary that is at
-- least the cooldown after the observation.
pub transition_height_bounds :
    (h_obs : ℕ)
    → h_obs + 300 ≤ 2 ^ 32
    → (transition_height h_obs % obs_window ≡ 0)
      × (h_obs + cooldown ≤ transition_height h_obs)
      × (transition_height h_obs < h_obs + cooldown + obs_window)
unfolding transition_height
transition_height_bounds h_obs h = ground arith
