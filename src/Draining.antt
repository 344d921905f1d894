-- ===== src/Draining.antt =====
-- litenyx/LITENYX_draining_authority.h: the settle-only overlay over the execution authority.
pub mod Eligible
pub mod Overlay
mod Tests
use litenyx.Common.{
  ℕ, suc, ◌-◌, ◌%◌, Bool, true, false, not, ◌&&◌, Option, none, some, List, [], ltb, leb, ◌==◌,
  if◌then◌else◌, length,
}
use litenyx.Common.Words.{u8}
use litenyx.Topology.{obs_window}
use litenyx.Authority.Activation.{TopoRegime}
use litenyx.Lifecycle.{
  ChainIdBinding, LifecycleState, ChainIdStatus, active, retired, nonexistent, lane_of,
  classify_chain_id,
}
use litenyx.Execution.{
  ExecutionAuthorityState, authorized, revoked, unknown, ExecutionAuthorityResult,
  is_pre_derivation, resolve_execution_authority_for_lane,
}

pub record DrainCommitment : Type 0 where
  pub present : Bool
  pub chain_id : ℕ  -- uint32
  pub drain_start_height : ℕ  -- uint32

pub data OperationalCapabilityMode : Type 0 where
  normal draining : OperationalCapabilityMode

pub record DrainCapabilityProjection : Type 0 where
  pub mode : OperationalCapabilityMode
  pub state : ExecutionAuthorityState
  pub eff_may_bind : Bool
  pub eff_may_route : Bool
  pub chain_id : ℕ
  pub lane_id : ℕ
  pub height : ℕ

abbrev pub is_active : ChainIdStatus → Bool
is_active active = true
is_active retired = false
is_active nonexistent = false

abbrev pub is_authorized : ExecutionAuthorityState → Bool
is_authorized ExecutionAuthorityState.authorized = true
is_authorized ExecutionAuthorityState.revoked = false
is_authorized ExecutionAuthorityState.unknown = false

pub is_draining : LifecycleState → DrainCommitment → ℕ → Bool
is_draining l c height =
    if not c.present
    then false
    else if ltb height c.drain_start_height
    then false
    else is_active (classify_chain_id l c.chain_id)

-- `LitenyxAuthoritativeLaneForChainId` is the search that the lifecycle calls `lane_of`.
abbrev authoritative_lane_for_chain_id : LifecycleState → ℕ → Option ℕ
authoritative_lane_for_chain_id l c = lane_of c l.active_bindings

current_highest_active_lane : LifecycleState → Option ℕ
current_highest_active_lane l =
    if length l.active_bindings == 0 then none else some (u8 (length l.active_bindings - 1))

on_highest_lane : Option ℕ → Option ℕ → Bool
on_highest_lane none highest = false
on_highest_lane (some bound) none = false
on_highest_lane (some bound) (some highest) = bound == highest

pub validate_drain_commitment_semantics :
    LifecycleState → DrainCommitment → ℕ → TopoRegime → ExecutionAuthorityState → Bool
unfolding current_highest_active_lane on_highest_lane
validate_drain_commitment_semantics l c height regime phase6_state =
    c.present
    && (not (is_pre_derivation regime)
        && (c.drain_start_height % obs_window == 0
            && (not (ltb height c.drain_start_height)
                && (is_active (classify_chain_id l c.chain_id)
                    && (is_authorized phase6_state
                        && on_highest_lane (authoritative_lane_for_chain_id l c.chain_id)
                            (current_highest_active_lane l))))))

pub project_drain_capability : ExecutionAuthorityResult → Bool → DrainCapabilityProjection
project_drain_capability p6 in_force =
    let is_drained = is_authorized p6.state && in_force in
    record {
      mode = if is_drained then draining else normal;
      state = p6.state;
      eff_may_bind = p6.may_bind && not is_drained;
      eff_may_route = p6.may_route;
      chain_id = p6.chain_id;
      lane_id = p6.lane_id;
      height = p6.height;
    }

pub resolve_drain_for_lane :
    LifecycleState → DrainCommitment → ℕ → ℕ → TopoRegime → DrainCapabilityProjection
resolve_drain_for_lane l c lane_id height exec_regime =
    project_drain_capability (resolve_execution_authority_for_lane l lane_id height exec_regime)
      (is_draining l c height)
