-- ===== src/Authority/Chain.antt =====
-- `LitenyxCalculateExpectedTopologyFromChain`: the derivation over a whole chain, over a prefix of
-- it, and window by window.
use litenyx.Common.{
  ℕ, zero, suc, ◌+◌, ◌-◌, ◌*◌, ◌/◌, ◌≤◌, ◌≡◌, refl, sym, ap, ◌∙◌, List, ◌++◌, arith, length, drop,
  length-append, length-drop, ltb, ◌^◌, ◌<◌, false, take-append, drop-append, drop-length,
  take-length,
}
use litenyx.Common.Int.{ℤ}
use litenyx.Topology.{obs_window}
use litenyx.Topology.Apply.{InRange}
use litenyx.Authority.{
  TopologyState, CommittedBlock, derive_topology_at_boundary, derive_step, window_at,
  reconstruct_mc_v1_window, expected_topology_from_chain, loop_rounds,
}
use litenyx.Authority.Loop.{derive_rounds, derive_loop-rounds, first-AtBoundary}
use litenyx.Authority.Boundary.{Boundary, derive-Boundary, step-Boundary}

-- The window that ends at height `h` lies within the first `h` blocks.
pub window_at-append :
    (chain more : List CommittedBlock) (h : ℕ)
    → obs_window ≤ h
    → h ≤ length chain
    → window_at (chain ++ more) h ≡ window_at chain h
unfolding window_at
window_at-append chain more h lo hi =
    let f : ltb h obs_window ≡ false = ground arith in
    rw (f, drop-append (h - obs_window) chain more (omega arith))
      (take-append obs_window (drop (h - obs_window) chain) more
        (omega (arith, length-drop (h - obs_window) chain)))

window_at-last :
    (chain window : List CommittedBlock) (h : ℕ)
    → length window ≡ obs_window
    → h ≡ length chain + obs_window
    → window_at (chain ++ window) h ≡ window
unfolding window_at
window_at-last chain window h len e =
    let f : ltb h obs_window ≡ false = ground arith in
    rw
      (
        f,
        drop-append (h - obs_window) chain window (omega arith),
        drop-length (h - obs_window) chain (omega arith),
      )
      (take-length obs_window window (omega arith))

derive_rounds-append :
    (r h : ℕ) (chain more : List CommittedBlock) (s : TopologyState)
    → obs_window ≤ h
    → h + obs_window * r ≤ length chain + obs_window
    → derive_rounds r h (chain ++ more) s ≡ derive_rounds r h chain s
unfolding derive_rounds derive_step
derive_rounds-append zero h chain more s lo hi = refl
derive_rounds-append (suc r) h chain more s lo hi =
    rw (window_at-append chain more h lo (omega arith))
      (derive_rounds-append r (h + obs_window) chain more _ (omega arith) (omega arith))

-- Where the height of the loop does not wrap, the derivation is the rounds up to the tip.
expected_rounds :
    (s : TopologyState) (chain : List CommittedBlock) (tip : ℕ)
    → tip ≤ length chain
    → tip + obs_window < 2 ^ 32
    → expected_topology_from_chain s chain tip
      ≡ record (derive_rounds (tip / obs_window) obs_window chain s) { n_height = tip }
unfolding expected_topology_from_chain
expected_rounds s chain tip le w =
    let f : ltb (length chain) tip ≡ false = ground arith in
    let e =
      derive_loop-rounds loop_rounds (tip / obs_window) obs_window tip chain s
        (first-AtBoundary tip w) in
    rw f (ap (λ (t : TopologyState). record t { n_height = tip }) e)

-- The state at a height depends on the blocks up to that height only: what follows them on the
-- chain does not change it.
pub expected_topology_from_chain-append :
    (s : TopologyState) (chain more : List CommittedBlock) (tip : ℕ)
    → tip ≤ length chain
    → tip + obs_window < 2 ^ 32
    → expected_topology_from_chain s (chain ++ more) tip ≡ expected_topology_from_chain s chain tip
expected_topology_from_chain-append s chain more tip le w =
    expected_rounds s (chain ++ more) tip (omega (arith, length-append chain more)) w
    ∙ ap (λ (t : TopologyState). record t { n_height = tip })
        (derive_rounds-append (tip / obs_window) obs_window chain more s (omega arith)
          (omega arith))
    ∙ sym (expected_rounds s chain tip le w)

derive_rounds-suc :
    (r h k : ℕ) (chain : List CommittedBlock) (s : TopologyState)
    → k ≡ h + obs_window * r
    → derive_rounds (suc r) h chain s ≡ derive_step chain k (derive_rounds r h chain s)
unfolding derive_rounds
derive_rounds-suc zero h k chain s e = ap (λ x. derive_step chain x s) (omega arith)
derive_rounds-suc (suc r) h k chain s e =
    derive_rounds-suc r (h + obs_window) k chain (derive_step chain h s) (omega arith)

derive-height :
    (s : TopologyState) (k h : ℕ) (mcs : List ℤ)
    → derive_topology_at_boundary (record s { n_height = k }) h mcs
      ≡ derive_topology_at_boundary s h mcs
unfolding derive_topology_at_boundary
derive-height s k h mcs = refl

at_tip :
    (r tip : ℕ) (s : TopologyState) (chain : List CommittedBlock)
    → length chain ≡ obs_window * r
    → tip ≡ obs_window * r
    → tip + obs_window < 2 ^ 32
    → expected_topology_from_chain s chain tip
      ≡ record (derive_rounds r obs_window chain s) { n_height = tip }
at_tip r tip s chain len e w =
    let f : tip / obs_window ≡ r = omega arith in
    expected_rounds s chain tip (omega arith) w
    ∙ ap (λ n. record (derive_rounds n obs_window chain s) { n_height = tip }) f

boundary_height :
    (s : TopologyState) (h : ℕ) (mcs : List ℤ)
    → InRange s.n_n
    → record (derive_topology_at_boundary s h mcs) { n_height = h }
      ≡ derive_topology_at_boundary s h mcs
boundary_height s h mcs i =
    let b : Boundary h s (derive_topology_at_boundary s h mcs) = derive-Boundary s h mcs i in
    ap (λ x. record (derive_topology_at_boundary s h mcs) { n_height = x }) (sym b.at_height)

rounds-InRange :
    (r h : ℕ) (chain : List CommittedBlock) (s : TopologyState)
    → InRange s.n_n
    → InRange (derive_rounds r h chain s).n_n
unfolding derive_rounds
rounds-InRange zero h chain s i = i
rounds-InRange (suc r) h chain s i =
    rounds-InRange r (h + obs_window) chain (derive_step chain h s)
      (step-Boundary chain h s i).in_range

-- Up to a new tip more than 100 below 2^32, where the height of the loop does not wrap, for a chain of
-- whole windows and a count between 2 and 8, connecting one more window of blocks gives the state
-- that the whole chain gives: a node that follows the chain and one that derives it anew agree.
pub expected_topology_from_chain_extend :
    (s : TopologyState) (chain window : List CommittedBlock) (r : ℕ)
    → InRange s.n_n
    → length chain ≡ obs_window * r
    → length window ≡ obs_window
    → length chain + obs_window + obs_window < 2 ^ 32
    → let before = expected_topology_from_chain s chain (length chain) in
      expected_topology_from_chain s (chain ++ window) (length chain + obs_window)
      ≡ derive_topology_at_boundary before
          (length chain + obs_window)
          (reconstruct_mc_v1_window window before.n_n)
expected_topology_from_chain_extend s chain window r i len wlen w =
    at_tip (suc r) top s (chain ++ window) (omega (arith, length-append chain window)) (omega arith)
      (omega arith)
    ∙ ap (λ (t : TopologyState). record t { n_height = top }) last_round
    ∙ boundary_height rounds top _ (rounds-InRange r obs_window chain s i)
    ∙ rw (at_tip r (length chain) s chain len len (omega arith))
        (sym (derive-height rounds (length chain) top _))
  where
    top : ℕ
    top = length chain + obs_window

    rounds : TopologyState
    rounds = derive_rounds r obs_window chain s

    last_round :
        derive_rounds (suc r) obs_window (chain ++ window) s
        ≡ derive_topology_at_boundary rounds top (reconstruct_mc_v1_window window rounds.n_n)
    last_round =
        derive_rounds-suc r obs_window top (chain ++ window) s (omega arith)
        ∙ rw (derive_rounds-append r obs_window chain window s (omega arith) (omega arith))
            (unfold derive_step in rw (window_at-last chain window top wlen refl))
