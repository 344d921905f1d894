-- ===== src/Execution.antt =====
-- litenyx/LITENYX_execution_authority.h: who may route and bind, decided from the lifecycle state.
pub mod Bijection
pub mod Decision
mod Tests
use litenyx.Common.{
  ℕ, Bool, true, false, Option, none, some, List, [], ◌∷◌, leb, ◌==◌, if◌then◌else◌,
}
use litenyx.Common.Words.{u8}
use litenyx.Topology.{topo_max_chains}
use litenyx.Authority.Activation.{TopoRegime, pre_derivation, soft_advisory, hard_authority}
use litenyx.Lifecycle.{
  ChainIdBinding, LifecycleState, ChainIdStatus, active, retired, nonexistent, ExecutionContext,
  validate_execution_context,
}

pub data ExecutionAuthorityState : Type 0 where
  authorized revoked unknown : ExecutionAuthorityState

pub data ExecutionAuthorityCode : Type 0 where
  ok unknown revoked wrong_lane premature malformed : ExecutionAuthorityCode

pub record ExecutionAuthorityResult : Type 0 where
  pub authorized : Bool
  pub may_route : Bool
  pub may_bind : Bool
  pub state : ExecutionAuthorityState
  pub code : ExecutionAuthorityCode
  pub chain_id : ℕ
  pub lane_id : ℕ  -- uint8
  pub height : ℕ

pub project_authority_state : ChainIdStatus → ExecutionAuthorityState
project_authority_state active = ExecutionAuthorityState.authorized
project_authority_state retired = ExecutionAuthorityState.revoked
project_authority_state nonexistent = ExecutionAuthorityState.unknown

denial_code : ChainIdStatus → ExecutionAuthorityCode
denial_code nonexistent = ExecutionAuthorityCode.unknown
denial_code active = ExecutionAuthorityCode.revoked
denial_code retired = ExecutionAuthorityCode.revoked

-- Step 3: `r` already echoes the assertion, `lane` is the asserted lane as a uint32.
pub project_context : ExecutionAuthorityResult → ExecutionContext → ℕ → ExecutionAuthorityResult
unfolding project_authority_state denial_code
project_context r ctx lane =
    let r' = record r { state = project_authority_state ctx.status } in
    if ctx.valid
    then if ctx.lane_id == lane
      then record r' {
        may_bind = true;
        lane_id = ctx.lane_id;
        may_route = true;
        authorized = true;
        code = ok;
      }
      else record r' { may_bind = true; lane_id = ctx.lane_id; code = wrong_lane }
    else record r' { code = denial_code ctx.status }

abbrev pub is_pre_derivation : TopoRegime → Bool
is_pre_derivation pre_derivation = true
is_pre_derivation soft_advisory = false
is_pre_derivation hard_authority = false

pub resolve_execution_authority : LifecycleState → ℕ → ℕ → ℕ → TopoRegime → ExecutionAuthorityResult
unfolding project_context
resolve_execution_authority l chain_id lane_id height regime =
    let r : ExecutionAuthorityResult = record {
      authorized = false;
      may_route = false;
      may_bind = false;
      state = ExecutionAuthorityState.unknown;
      code = ExecutionAuthorityCode.unknown;
      chain_id = chain_id;
      lane_id = u8 lane_id;
      height = height;
    } in
    if leb topo_max_chains lane_id
    then record r { code = malformed }
    else if is_pre_derivation regime
    then record r { code = premature }
    else project_context r (validate_execution_context l chain_id height) lane_id

-- The chain identity that the first binding of a lane carries.
unfoldable pub chain_at : ℕ → List ChainIdBinding → Option ℕ
chain_at lane [] = none
chain_at lane (b ∷ bs) = if b.lane_id == lane then some b.chain_id else chain_at lane bs

abbrev pub or_else : Option ℕ → ℕ → ℕ
or_else none d = d
or_else (some c) d = c

pub resolve_execution_authority_for_lane :
    LifecycleState → ℕ → ℕ → TopoRegime → ExecutionAuthorityResult
resolve_execution_authority_for_lane l lane_id height regime =
    resolve_execution_authority l (or_else (chain_at lane_id l.active_bindings) l.next_chain_id)
      lane_id height regime
