-- ===== src/Lifecycle/Chain.antt =====
-- `LitenyxCalculateExpectedLifecycleFromChain`, beside the topology derivation of the same chain.
use litenyx.Common.{
  ℕ, zero, suc, ◌+◌, ◌/◌, ◌%◌, ◌^◌, ◌≤◌, ◌<◌, leb, false, min, ◌≡◌, ◌⊎◌, inl, inr, refl, some, List,
  ltb, if◌then◌else◌, length, arith,
}
use litenyx.Common.Words.{u32, u32_max}
use litenyx.Topology.{obs_window}
use litenyx.Topology.Apply.{InRange}
use litenyx.Authority.{
  TopologyState, CommittedBlock, genesis, derive_step, derive_loop, loop_rounds,
  expected_topology_from_chain,
}
use litenyx.Authority.Loop.{AtBoundary, next-AtBoundary, goes_on, first-AtBoundary}
use litenyx.Authority.Boundary.{Boundary, step-Boundary}
use litenyx.Lifecycle.{
  LifecycleState, lifecycle_genesis, lifecycle_loop, expected_lifecycle_from_chain,
}
use litenyx.Lifecycle.Coherence.{IsCoherent, genesis-IsCoherent}
use litenyx.Lifecycle.Step.{LifecycleStep, held, split, merged, LifecycleStep-IsCoherent}
use litenyx.Lifecycle.Advance.{advance_lifecycle_iff, advance_lifecycle_total}

-- The count of a step at a boundary is at most one away.
near :
    (h : ℕ) (s t : TopologyState)
    → Boundary h s t
    → (t.n_n ≡ s.n_n) ⊎ (t.n_n ≡ s.n_n + 1) ⊎ (s.n_n ≡ t.n_n + 1)
near h s t b = elim b.outcome [
  | inl h ↦ inl h.count_kept
  | inr m ↦ elim m.by_one [ inl up ↦ inr (inl up) | inr down ↦ inr (inr down) ]
]

-- A transition takes at most one new identity.
grows :
    (prev : LifecycleState) (n m h : ℕ) (out : LifecycleState)
    → LifecycleStep prev n m h out
    → out.next_chain_id ≤ prev.next_chain_id + 1
grows prev n m h out (held e o) = rw o (omega arith)
grows prev n m h out (split e a lt o) = rw o (omega arith)
grows prev n m h out (merged last e a l f o) = rw o (omega arith)

loop_total :
    (fuel r h tip : ℕ) (chain : List CommittedBlock) (topo : TopologyState) (life : LifecycleState)
    → AtBoundary fuel r h tip
    → InRange topo.n_n
    → IsCoherent life topo.n_n
    → h % obs_window ≡ 0
    → life.next_chain_id + r ≤ u32_max
    → (out : LifecycleState) × (lifecycle_loop fuel h tip chain topo life ≡ some out)
      × IsCoherent out (derive_loop fuel h tip chain topo).n_n
      × (out.next_chain_id ≤ life.next_chain_id + r)
unfolding lifecycle_loop derive_loop
loop_total zero r h tip chain topo life at i c a fits = absurd (omega (arith, at.fuelled))
loop_total (suc fuel) zero h tip chain topo life at i c a fits =
    let past : leb h tip ≡ false = let b = at.beyond in ground arith in
    (life, rw (past, lifecycle_loop) refl, rw (past, derive_loop) c, omega arith)
loop_total (suc fuel) (suc r) h tip chain topo life at i c a fits =
    let (go, u) = goes_on (suc fuel) r h tip at in
    let b : Boundary h topo (derive_step chain h topo) = step-Boundary chain h topo i in
    let (next, e) =
      advance_lifecycle_total life topo.n_n (derive_step chain h topo).n_n h c b.in_range
        (near h topo (derive_step chain h topo) b) a (omega (arith, at.within, at.no_wrap)) in
    let (_, _, st) =
      (advance_lifecycle_iff life topo.n_n (derive_step chain h topo).n_n h next (omega arith)).0
        e in
    let g = grows life topo.n_n (derive_step chain h topo).n_n h next st in
    let (out, f, c', le) =
      loop_total fuel r (u32 (h + obs_window)) tip chain (derive_step chain h topo) next
        (next-AtBoundary fuel r h tip at) b.in_range
        (LifecycleStep-IsCoherent life topo.n_n (derive_step chain h topo).n_n h next c b.in_range
          st)
        (omega arith) (omega arith) in
    (out, rw (go, e, lifecycle_loop) f, rw (go, derive_loop) c', omega arith)

-- Up to a tip more than 100 below 2^32, where the height of the loop does not wrap, the lifecycle
-- derivation returns and succeeds on every chain, the state is coherent for the count that the topology derivation gives at the same height,
-- and at most one identity per window was issued beyond the first two.
pub expected_lifecycle_from_chain_total :
    (chain : List CommittedBlock) (tip : ℕ)
    → min tip (length chain) + obs_window < 2 ^ 32
    → (out : LifecycleState) × (expected_lifecycle_from_chain chain tip ≡ some out)
      × IsCoherent out (expected_topology_from_chain genesis chain tip).n_n
      × (out.next_chain_id ≤ 2 + min tip (length chain) / obs_window)
unfolding expected_lifecycle_from_chain expected_topology_from_chain
expected_lifecycle_from_chain_total chain tip fits =
    let top : ℕ = if ltb (length chain) tip then length chain else tip in
    let small : top ≡ min tip (length chain) = ground arith in
    let (out, e, c, le) =
      loop_total loop_rounds (top / obs_window) obs_window top chain genesis lifecycle_genesis
        (first-AtBoundary top (ground arith)) (omega arith) genesis-IsCoherent (omega arith)
        (unfold lifecycle_genesis in ground arith) in
    (out, e, c, unfold lifecycle_genesis in omega arith)
