-- ===== src/Execution/Decision.antt =====
-- The decision of `LitenyxResolveExecutionAuthority`, for a route and for the lane of a block.
use litenyx.Common.{
  dec_lt, ltb, ℕ, ◌≤◌, ◌<◌, ◌≡◌, ◌≢◌, ◌↔◌, ◌⊎◌, inl, inr, true, none, some, leb, ◌==◌,
  if◌then◌else◌, arith,
}
use litenyx.Common.Words.{u8}
use litenyx.Topology.{topo_max_chains}
use litenyx.Authority.Activation.{TopoRegime, pre_derivation}
use litenyx.Lifecycle.{LifecycleState, lane_of}
use litenyx.Lifecycle.Coherence.{IsCoherent}
use litenyx.Lifecycle.Identity.{Issued-lane_of, validate_execution_context_cases}
use litenyx.Execution.{
  ExecutionAuthorityState, ExecutionAuthorityCode, ExecutionAuthorityResult, ok, wrong_lane,
  premature, malformed, is_pre_derivation, chain_at, resolve_execution_authority,
  resolve_execution_authority_for_lane,
}
use litenyx.Execution.Bijection.{lane_of-chain_at, chain_at_lanes}

-- What the code says, by the failure precedence.
abbrev pub expected_code : LifecycleState → ℕ → ℕ → TopoRegime → ExecutionAuthorityCode
expected_code l c lane regime =
    if leb topo_max_chains lane
    then malformed
    else if is_pre_derivation regime
    then premature
    else elim (lane_of c l.active_bindings) [
      | some bound ↦ if bound == lane then ok else wrong_lane
      | none ↦
          if leb l.next_chain_id c
          then ExecutionAuthorityCode.unknown
          else ExecutionAuthorityCode.revoked
    ]

-- In a coherent state the code follows the precedence Malformed, Premature, then the identity and
-- its lane; routing is granted exactly with the code Ok, as is authority, and binding exactly with
-- the codes Ok and WrongLane.
pub resolve_execution_authority_lem :
    (l : LifecycleState) (n c lane height : ℕ) (regime : TopoRegime)
    → IsCoherent l n
    → let r = resolve_execution_authority l c lane height regime in
      (r.code ≡ expected_code l c lane regime)
      × ((r.authorized ≡ true) ↔ (r.code ≡ ok))
      × ((r.may_route ≡ true) ↔ (r.code ≡ ok))
      × ((r.may_bind ≡ true) ↔ ((r.code ≡ ok) ⊎ (r.code ≡ wrong_lane)))
unfolding resolve_execution_authority
resolve_execution_authority_lem l n c lane height regime k =
    elim (validate_execution_context_cases l n c height k) [
      | inl (bound, e, f) ↦ ground (arith, e, f)
      | inr (e, f) ↦ ground (arith, e, f)
    ]

-- A block on a lane of a coherent state for `n` chains.
pub record LaneAnswer (l : LifecycleState) (n lane : ℕ) (r : ExecutionAuthorityResult)
    : Type 0 where
  pub code : r.code ≡ (
      if ltb lane n
      then ok
      else if ltb lane topo_max_chains
      then ExecutionAuthorityCode.unknown
      else malformed)
  pub owner : chain_at lane l.active_bindings ≡ (if ltb lane n then some r.chain_id else none)
  pub echoed : r.lane_id ≡ u8 lane
  pub binds : (r.may_bind ≡ true) ↔ (lane < n)
  pub allowed : (r.state ≡ ExecutionAuthorityState.authorized) ↔ (lane < n)
  pub routes : (r.may_route ≡ true) ↔ (lane < n)

owned_lane :
    (l : LifecycleState) (n lane c height : ℕ) (regime : TopoRegime)
    → IsCoherent l n
    → regime ≢ pre_derivation
    → lane < n
    → chain_at lane l.active_bindings ≡ some c
    → LaneAnswer l n lane (resolve_execution_authority l c lane height regime)
unfolding resolve_execution_authority
owned_lane l n lane c height regime k late lt e =
    let f = (lane_of-chain_at l n c lane k).1 e in
    let top = k.in_range.1 in
    elim (validate_execution_context_cases l n c height k) [
      | inl (bound, g, v) ↦ ground (arith, e, f, g, v)
      | inr (g, v) ↦ cc (f, g)
    ]

unowned_lane :
    (l : LifecycleState) (n lane height : ℕ) (regime : TopoRegime)
    → IsCoherent l n
    → regime ≢ pre_derivation
    → n ≤ lane
    → chain_at lane l.active_bindings ≡ none
    → LaneAnswer l n lane (resolve_execution_authority l l.next_chain_id lane height regime)
unfolding resolve_execution_authority
unowned_lane l n lane height regime k late ge e =
    let f =
      Issued-lane_of l.next_chain_id l.next_chain_id l.active_bindings k.issued (omega arith) in
    elim (validate_execution_context_cases l n l.next_chain_id height k) [
      | inl (bound, g, v) ↦ cc (f, g)
      | inr (g, v) ↦ ground (arith, g, v)
    ]

-- From soft advisory on, a block on an active lane of a coherent state is authorized, to route and
-- to bind, under the identity that owns the lane; on any other lane it is denied both, with the code
-- Unknown below lane 8 and Malformed from there on.
pub resolve_for_lane_lem :
    (l : LifecycleState) (n lane height : ℕ) (regime : TopoRegime)
    → IsCoherent l n
    → regime ≢ pre_derivation
    → LaneAnswer l n lane (resolve_execution_authority_for_lane l lane height regime)
unfolding resolve_execution_authority_for_lane
resolve_for_lane_lem l n lane height regime k late = elim (dec_lt lane n) [
  | yes lt ↦
      let (c, e) = (chain_at_lanes l n lane k).0 lt in
      rw e (owned_lane l n lane c height regime k late lt e)
  | no ge ↦
      let e = (chain_at_lanes l n lane k).1 (omega arith) in
      rw e (unowned_lane l n lane height regime k late (omega arith) e)
]
