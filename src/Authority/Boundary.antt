-- ===== src/Authority/Boundary.antt =====
-- One step of the authority: `LitenyxDeriveTopologyAtBoundary`, and what the cooldown then forbids.
use litenyx.Common.{
  ℕ, zero, suc, ◌+◌, ◌*◌, ◌^◌, ◌≤◌, ◌<◌, ◌≡◌, ◌≢◌, ◌⊎◌, inl, inr, refl, List, ◌∙◌, arith,
}
use litenyx.Common.Int.{ℤ}
use litenyx.Topology.{
  TopoDecision, hold, split, merge, topo_decide, topo_apply, transition_height, cooldown,
  obs_window,
}
use litenyx.Topology.Decision.{CooldownOver, topo_decide_cases}
use litenyx.Topology.Apply.{InRange, Follows, apply-decide, transition_height_bounds}
use litenyx.Authority.Loop.{derive_rounds}
use litenyx.Authority.{
  TopologyState, CommittedBlock, observations, enact, derive_topology_at_boundary, derive_step,
}

-- A step at height `h` that leaves the chain count alone.
pub record Held (h : ℕ) (s t : TopologyState) : Type 0 where
  pub count_kept : t.n_n ≡ s.n_n
  pub last_kept : t.n_last_transition ≡ s.n_last_transition

-- A step at height `h` that starts or retires one lane.
pub record Moved (h : ℕ) (s t : TopologyState) : Type 0 where
  pub ready : CooldownOver h s.n_last_transition
  pub by_one : (t.n_n ≡ s.n_n + 1) ⊎ (s.n_n ≡ t.n_n + 1)
  pub last_set : t.n_last_transition ≡ transition_height h

pub record Boundary (h : ℕ) (s t : TopologyState) : Type 0 where
  pub at_height : t.n_height ≡ h
  pub same_version : t.n_version ≡ s.n_version
  pub in_range : InRange t.n_n
  pub outcome : Held h s t ⊎ Moved h s t

enact-Boundary :
    (s : TopologyState) (h : ℕ) (d : TopoDecision)
    → InRange s.n_n
    → (d ≢ hold → CooldownOver h s.n_last_transition)
    → Follows d s.n_n (topo_apply s.n_n d) × InRange (topo_apply s.n_n d)
    → Boundary h s (enact (record s { n_height = h }) h d)
unfolding enact
enact-Boundary s h hold r c f = ground arith
enact-Boundary s h split r c f = let over = c (λ e. cc) in ground arith
enact-Boundary s h merge r c f = let over = c (λ e. cc) in ground arith

decided-CooldownOver :
    (mcs : List ℤ) (s : TopologyState) (h : ℕ)
    → topo_decide (observations mcs) s.n_n h s.n_last_transition ≢ hold
    → CooldownOver h s.n_last_transition
decided-CooldownOver mcs s h ne =
    go (topo_decide (observations mcs) s.n_n h s.n_last_transition) refl
  where
    go :
        (d : TopoDecision)
        → topo_decide (observations mcs) s.n_n h s.n_last_transition ≡ d
        → CooldownOver h s.n_last_transition
    go hold e = absurd (ne e)
    go split e = ((topo_decide_cases (observations mcs) s.n_n h s.n_last_transition).0.0 e).0
    go merge e = ((topo_decide_cases (observations mcs) s.n_n h s.n_last_transition).1.0 e).0

-- From a count between 2 and 8, a step at a boundary sets the height, keeps the version and the
-- range, and either keeps the count and the last transition, or moves the count by one, which it
-- does only after the cooldown, and records the transition height of this boundary.
pub derive-Boundary :
    (s : TopologyState) (h : ℕ) (mcs : List ℤ)
    → InRange s.n_n
    → Boundary h s (derive_topology_at_boundary s h mcs)
unfolding derive_topology_at_boundary
derive-Boundary s h mcs r =
    enact-Boundary s h (topo_decide (observations mcs) s.n_n h s.n_last_transition) r
      (decided-CooldownOver mcs s h) (apply-decide (observations mcs) s.n_n h s.n_last_transition r)

pub step-Boundary :
    (chain : List CommittedBlock) (h : ℕ) (s : TopologyState)
    → InRange s.n_n
    → Boundary h s (derive_step chain h s)
unfolding derive_step
step-Boundary chain h s r = derive-Boundary s h _ r

-- While the last transition is recorded and every height visited is within the cooldown after it,
-- rounds of the derivation change neither.
rounds_held :
    (r k : ℕ) (chain : List CommittedBlock) (s : TopologyState)
    → InRange s.n_n
    → 0 < s.n_last_transition
    → k + obs_window * r < s.n_last_transition + cooldown + obs_window
    → (derive_rounds r k chain s).n_n ≡ s.n_n
unfolding derive_rounds
rounds_held zero k chain s i p lt = refl
rounds_held (suc r) k chain s i p lt =
    let b : Boundary k s (derive_step chain k s) = step-Boundary chain k s i in
    elim b.outcome [
      | inl held ↦
          rounds_held r (k + obs_window) chain (derive_step chain k s) b.in_range (omega arith)
            (omega arith)
          ∙ held.count_kept
      | inr moved ↦ absurd (omega arith)
    ]

-- A transition at height `h` takes effect there, and the three boundaries after it hold the count:
-- two transitions are at least 400 blocks apart.
pub transition_spacing :
    (chain : List CommittedBlock) (h r : ℕ) (s : TopologyState)
    → InRange s.n_n
    → h + 300 ≤ 2 ^ 32
    → (derive_step chain h s).n_n ≢ s.n_n
    → r ≤ 3
    → (derive_rounds r (h + obs_window) chain (derive_step chain h s)).n_n
      ≡ (derive_step chain h s).n_n
transition_spacing chain h r s i fits changed le =
    let b : Boundary h s (derive_step chain h s) = step-Boundary chain h s i in
    elim b.outcome [
      | inl held ↦ absurd (changed held.count_kept)
      | inr moved ↦
          rounds_held r (h + obs_window) chain (derive_step chain h s) b.in_range
            (omega (arith, transition_height_bounds h fits))
            (omega (arith, transition_height_bounds h fits))
    ]
