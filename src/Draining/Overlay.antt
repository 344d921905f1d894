-- ===== src/Draining/Overlay.antt =====
-- `LitenyxProjectDrainCapability`, `LitenyxIsDraining` and `LitenyxResolveDrainForLane`.
use litenyx.Common.{ℕ, ◌≤◌, ◌<◌, ◌≡◌, ◌≢◌, ◌↔◌, Bool, true, false, some, arith}
use litenyx.Authority.Activation.{TopoRegime, pre_derivation}
use litenyx.Lifecycle.{LifecycleState, active, classify_chain_id}
use litenyx.Lifecycle.Coherence.{IsCoherent}
use litenyx.Execution.{
  ExecutionAuthorityState, ExecutionAuthorityResult, chain_at, resolve_execution_authority_for_lane,
}
use litenyx.Execution.Decision.{resolve_for_lane_lem}
use litenyx.Draining.{
  DrainCommitment, DrainCapabilityProjection, normal, draining, is_draining,
  project_drain_capability, resolve_drain_for_lane,
}

-- The overlay keeps the state, the route, the identity, the lane and the height. It drains exactly an
-- authorized identity with a drain in force, which may then not bind; else binding is unchanged.
pub record Overlaid (p6 : ExecutionAuthorityResult) (in_force : Bool)
    (p : DrainCapabilityProjection) : Type 0 where
  pub same_state : p.state ≡ p6.state
  pub same_route : p.eff_may_route ≡ p6.may_route
  pub same_chain : p.chain_id ≡ p6.chain_id
  pub same_lane : p.lane_id ≡ p6.lane_id
  pub same_height : p.height ≡ p6.height
  pub drained :
      (p.mode ≡ draining) ↔ ((p6.state ≡ ExecutionAuthorityState.authorized) × (in_force ≡ true))
  pub binding : (p.eff_may_bind ≡ true) ↔ ((p6.may_bind ≡ true) × (p.mode ≡ normal))

-- The projection is such an overlay, for every result and whether or not a drain is in force.
pub project_drain_capability-Overlaid :
    (p6 : ExecutionAuthorityResult) (in_force : Bool)
    → Overlaid p6 in_force (project_drain_capability p6 in_force)
unfolding project_drain_capability
project_drain_capability-Overlaid p6 in_force = ground arith

-- A drain is in force exactly if the commitment is present, its start is reached, and its identity
-- is active in the lifecycle state.
pub is_draining_iff :
    (l : LifecycleState) (c : DrainCommitment) (height : ℕ)
    → (is_draining l c height ≡ true) ↔ (
        (c.present ≡ true)
        × (c.drain_start_height ≤ height)
        × (classify_chain_id l c.chain_id ≡ active))
unfolding is_draining
is_draining_iff l c height = ground arith

-- The drain of one identity is applied to every active lane: once it is in force, the owner of any
-- lane, also of one with another identity, is reported as draining and may not bind.
pub resolve_drain_for_lane_any :
    (l : LifecycleState) (n : ℕ) (c : DrainCommitment) (lane height : ℕ) (regime : TopoRegime)
    → IsCoherent l n
    → regime ≢ pre_derivation
    → is_draining l c height ≡ true
    → lane < n
    → ((resolve_drain_for_lane l c lane height regime).mode ≡ draining)
      × ((resolve_drain_for_lane l c lane height regime).eff_may_bind ≡ false)
      × (chain_at lane l.active_bindings
          ≡ some (resolve_drain_for_lane l c lane height regime).chain_id)
unfolding resolve_drain_for_lane
resolve_drain_for_lane_any l n c lane height regime k late d lt =
    let o =
      project_drain_capability-Overlaid (resolve_execution_authority_for_lane l lane height regime)
        (is_draining l c height) in
    let a = resolve_for_lane_lem l n lane height regime k late in
    let m = o.drained.1 (a.allowed.1 lt, d) in
    (m, ground (arith, o.binding.0, m), rw o.same_chain (ground (arith, a.owner)))
