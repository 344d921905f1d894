-- ===== src/Draining/Eligible.antt =====
-- Which drains `LitenyxValidateDrainCommitmentSemantics` admits, and how a drain ends.
use litenyx.Common.{
  dec_lt, Bool-cases, ℕ, ◌+◌, ◌-◌, ◌%◌, ◌^◌, ◌≤◌, ◌<◌, ◌≡◌, ◌≢◌, ◌↔◌, inl, inr, true, false, some,
  [], ◌∷◌, ◌++◌, arith,
}
use litenyx.Topology.{obs_window}
use litenyx.Topology.Apply.{InRange}
use litenyx.Authority.Activation.{TopoRegime, pre_derivation}
use litenyx.Lifecycle.{
  LifecycleState, ChainIdBinding, active, retired, classify_chain_id, lane_of, advance_lifecycle,
}
use litenyx.Lifecycle.Coherence.{IsCoherent}
use litenyx.Lifecycle.Identity.{lane_of-snoc, advance-Evolves, active-then, classify-active_iff}
use litenyx.Lifecycle.Step.{LifecycleStep, held, split, merged, LifecycleStep-IsCoherent}
use litenyx.Lifecycle.Advance.{advance_lifecycle_iff}
use litenyx.Execution.{ExecutionAuthorityState}
use litenyx.Execution.Bijection.{lane_of-chain_at, chain_at_lanes}
use litenyx.Draining.{DrainCommitment, is_draining, validate_drain_commitment_semantics}
use litenyx.Draining.Overlay.{is_draining_iff}

pub record IsEligible (l : LifecycleState) (n : ℕ) (c : DrainCommitment) (height : ℕ)
    (regime : TopoRegime) (p6 : ExecutionAuthorityState) : Type 0 where
  pub in_force : is_draining l c height ≡ true
  pub late : regime ≢ pre_derivation
  pub aligned : c.drain_start_height % obs_window ≡ 0
  pub allowed : p6 ≡ ExecutionAuthorityState.authorized
  pub highest : lane_of c.chain_id l.active_bindings ≡ some (n - 1)

-- In a coherent state for `n` lanes a commitment is admitted exactly if its drain is in force, it
-- starts at a window boundary, the regime has begun, its identity is authorized, and that identity
-- owns the highest lane.
pub validate_drain_commitment_semantics_iff :
    (l : LifecycleState) (n : ℕ) (c : DrainCommitment) (height : ℕ) (regime : TopoRegime)
    (p6 : ExecutionAuthorityState)
    → IsCoherent l n
    → (validate_drain_commitment_semantics l c height regime p6 ≡ true)
      ↔ IsEligible l n c height regime p6
unfolding validate_drain_commitment_semantics is_draining
validate_drain_commitment_semantics_iff l n c height regime p6 k =
    let count = k.count in let range = k.in_range in (λ e. ground arith, λ e. ground arith)

module _ (l : LifecycleState) (n m h : ℕ) (out : LifecycleState) (c : ℕ)
    (w : l.next_chain_id < 2 ^ 32) (s : advance_lifecycle l n m h ≡ some out) where
  -- The lane that the merge retires is no lane of the state after it.
  merged_away :
      n ≡ m + 1
      → lane_of c l.active_bindings ≡ some (n - 1)
      → (lane : ℕ) → lane_of c out.active_bindings ≢ some lane
  merged_away e highest lane found = go st
    where
      open_step : IsCoherent l n × InRange m × LifecycleStep l n m h out
      open_step = (advance_lifecycle_iff l n m h out w).0 s

      st : LifecycleStep l n m h out
      st = open_step.2

      after : IsCoherent out m
      after = LifecycleStep-IsCoherent l n m h out open_step.0 open_step.1 st

      below : lane < m
      below = elim (dec_lt lane m) [
        | yes lt ↦ lt
        | no ge ↦ cc (
          (chain_at_lanes out m lane after).1 (omega arith),
          (lane_of-chain_at out m c lane after).0 found,
        )
      ]

      go : LifecycleStep l n m h out → ⊥
      go (held f o) = omega arith
      go (split f a lt o) = omega arith
      go (merged last f a k b o) =
          let old : lane_of c (out.active_bindings ++ last ∷ []) ≡ some (n - 1) =
            rw (← b) highest in
          ground (arith, below, old, lane_of-snoc c out.active_bindings last, found)

  retired_by_merge :
      n ≡ m + 1
      → lane_of c l.active_bindings ≡ some (n - 1)
      → classify_chain_id l c ≡ active
      → classify_chain_id out c ≡ retired
  retired_by_merge e highest act = elim (active-then (advance-Evolves l n m h out c w s) act) [
    | inl still ↦
        let (coherent, range, st) = (advance_lifecycle_iff l n m h out w).0 s in
        let after = LifecycleStep-IsCoherent l n m h out coherent range st in
        let (lane, f) = (classify-active_iff out m c after).0 still in
        absurd (merged_away e highest lane f)
    | inr gone ↦ gone
  ]

-- When the lane of a draining identity on the highest lane is merged away, the identity is retired,
-- and its drain is no longer in force at any height.
pub drain_completes :
    (l : LifecycleState) (n m height h : ℕ) (out : LifecycleState) (c : DrainCommitment)
    → l.next_chain_id < 2 ^ 32
    → is_draining l c height ≡ true
    → lane_of c.chain_id l.active_bindings ≡ some (n - 1)
    → n ≡ m + 1
    → advance_lifecycle l n m h ≡ some out
    → (classify_chain_id out c.chain_id ≡ retired) × ((k : ℕ) → is_draining out c k ≡ false)
drain_completes l n m height h out c w d highest e s =
    let act = ((is_draining_iff l c height).0 d).2 in
    let gone = retired_by_merge l n m h out c.chain_id w s e highest act in
    (
      gone,
      λ k. elim (Bool-cases (is_draining out c k)) [
        | inl on ↦ cc (gone, ((is_draining_iff out c k).0 on).2)
        | inr off ↦ off
      ],
    )

-- A split before the merge leaves the drain in force, and the commitment is no longer admitted: the
-- identity does not own the highest lane any more.
pub split_suspends :
    (l : LifecycleState) (n m height h : ℕ) (out : LifecycleState) (c : DrainCommitment)
    (regime : TopoRegime) (p6 : ExecutionAuthorityState)
    → l.next_chain_id < 2 ^ 32
    → IsEligible l n c height regime p6
    → m ≡ n + 1
    → advance_lifecycle l n m h ≡ some out
    → (is_draining out c height ≡ true)
      × (validate_drain_commitment_semantics out c height regime p6 ≡ false)
split_suspends l n m height h out c regime p6 w el e s = go st
  where
    open_step : IsCoherent l n × InRange m × LifecycleStep l n m h out
    open_step = (advance_lifecycle_iff l n m h out w).0 s

    st : LifecycleStep l n m h out
    st = open_step.2

    after : IsCoherent out m
    after = LifecycleStep-IsCoherent l n m h out open_step.0 open_step.1 st

    facts :
        (c.present ≡ true)
        × (c.drain_start_height ≤ height)
        × (classify_chain_id l c.chain_id ≡ active)
    facts = (is_draining_iff l c height).0 el.in_force

    conclude :
        lane_of c.chain_id out.active_bindings ≡ some (n - 1)
        → (is_draining out c height ≡ true)
          × (validate_drain_commitment_semantics out c height regime p6 ≡ false)
    conclude lane = (
      (is_draining_iff out c height).1
          (facts.0, facts.1, (classify-active_iff out m c.chain_id after).1 (n - 1, lane)),
      elim (Bool-cases (validate_drain_commitment_semantics out c height regime p6)) [
        | inl on ↦
            let again =
              (validate_drain_commitment_semantics_iff out m c height regime p6 after).0 on in
            let top = again.highest in
            let range = open_step.0.in_range in absurd (ground (arith, top, lane))
        | inr off ↦ off
      ],
    )

    go :
        LifecycleStep l n m h out
        → (is_draining out c height ≡ true)
          × (validate_drain_commitment_semantics out c height regime p6 ≡ false)
    go (held f o) = absurd (omega arith)
    go (merged last f a k b o) = absurd (omega arith)
    go (split f a lt o) =
        let b : ChainIdBinding = record { lane_id = n; chain_id = l.next_chain_id } in
        conclude (ground (arith, o, lane_of-snoc c.chain_id l.active_bindings b, el.highest))
