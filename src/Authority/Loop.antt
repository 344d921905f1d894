-- ===== src/Authority/Loop.antt =====
-- The loop of `LitenyxCalculateExpectedTopologyFromChain` over the boundaries, where its height does
-- not wrap.
use litenyx.Common.{
  ℕ, zero, suc, ◌+◌, ◌*◌, ◌/◌, ◌^◌, ◌≤◌, ◌<◌, ◌≡◌, refl, ◌∙◌, List, arith, leb, true,
}
use litenyx.Common.Words.{u32}
use litenyx.Topology.{obs_window}
use litenyx.Authority.{TopologyState, CommittedBlock, derive_step, derive_loop, loop_rounds}

-- The boundaries h, h + W, ..., as many as `rounds`.
unfoldable pub derive_rounds : ℕ → ℕ → List CommittedBlock → TopologyState → TopologyState
derive_rounds zero h chain state = state
derive_rounds (suc rounds) h chain state =
    derive_rounds rounds (h + obs_window) chain (derive_step chain h state)

-- The loop stands at height `h` before the last `rounds` boundaries up to the tip, within its fuel.
pub record AtBoundary (fuel rounds h tip : ℕ) : Type 0 where
  pub within : h + obs_window * rounds ≤ tip + obs_window
  pub beyond : tip < h + obs_window * rounds
  pub fuelled : rounds < fuel
  pub no_wrap : tip + obs_window < 2 ^ 32

pub next-AtBoundary :
    (fuel rounds h tip : ℕ)
    → AtBoundary (suc fuel) (suc rounds) h tip
    → AtBoundary fuel rounds (u32 (h + obs_window)) tip
next-AtBoundary fuel rounds h tip a =
    let e : u32 (h + obs_window) ≡ h + obs_window = omega (arith, a.within, a.no_wrap) in
    record {
      within = omega (arith, a.within);
      beyond = omega (arith, a.beyond);
      fuelled = omega (arith, a.fuelled);
      no_wrap = a.no_wrap;
    }

-- The tip is not passed while a round is left.
pub goes_on :
    (fuel rounds h tip : ℕ)
    → AtBoundary fuel (suc rounds) h tip
    → (leb h tip ≡ true) × (u32 (h + obs_window) ≡ h + obs_window)
goes_on fuel rounds h tip a =
    let l : h ≤ tip = omega (arith, a.within) in let w = a.no_wrap in (ground arith, omega arith)

pub derive_loop-rounds :
    (fuel rounds h tip : ℕ) (chain : List CommittedBlock) (s : TopologyState)
    → AtBoundary fuel rounds h tip
    → derive_loop fuel h tip chain s ≡ derive_rounds rounds h chain s
unfolding derive_loop derive_rounds
derive_loop-rounds zero rounds h tip chain s a = absurd (omega (arith, a.fuelled))
derive_loop-rounds (suc fuel) zero h tip chain s a = let b = a.beyond in ground arith
derive_loop-rounds (suc fuel) (suc rounds) h tip chain s a =
    let (go, e) = goes_on (suc fuel) rounds h tip a in
    let ih =
      derive_loop-rounds fuel rounds (u32 (h + obs_window)) tip chain (derive_step chain h s)
        (next-AtBoundary fuel rounds h tip a) in
    rw (go, derive_loop) (ih ∙ rw e refl)

-- Before the first round.
pub first-AtBoundary :
    (tip : ℕ) → tip + obs_window < 2 ^ 32 → AtBoundary loop_rounds (tip / obs_window) obs_window tip
unfolding loop_rounds
first-AtBoundary tip h = record {
  within = omega arith;
  beyond = omega arith;
  fuelled = omega arith;
  no_wrap = h;
}
