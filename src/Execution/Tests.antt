-- ===== src/Execution/Tests.antt =====
-- The execution authority's theorems at concrete inputs.
use litenyx.Common.{◌≡◌, ◌≢◌, ◌↔◌, ◌⊎◌, true, some}
use litenyx.Authority.Activation.{pre_derivation, soft_advisory}
use litenyx.Lifecycle.{lifecycle_genesis, lane_of}
use litenyx.Lifecycle.Coherence.{genesis-IsCoherent}
use litenyx.Execution.{
  ExecutionAuthorityResult, ok, wrong_lane, resolve_execution_authority, chain_at,
  resolve_execution_authority_for_lane,
}
use litenyx.Execution.Bijection.{lane_of-chain_at}
use litenyx.Execution.Decision.{
  expected_code, resolve_execution_authority_lem, LaneAnswer, resolve_for_lane_lem,
}

abbrev answer : ExecutionAuthorityResult
answer = resolve_execution_authority lifecycle_genesis 1 0 700 soft_advisory

resolve_execution_authority_lem_example :
    (answer.code ≡ expected_code lifecycle_genesis 1 0 soft_advisory)
    × ((answer.authorized ≡ true) ↔ (answer.code ≡ ok))
    × ((answer.may_route ≡ true) ↔ (answer.code ≡ ok))
    × ((answer.may_bind ≡ true) ↔ ((answer.code ≡ ok) ⊎ (answer.code ≡ wrong_lane)))
resolve_execution_authority_lem_example =
    resolve_execution_authority_lem lifecycle_genesis 2 1 0 700 soft_advisory genesis-IsCoherent

soft_is_late : soft_advisory ≢ pre_derivation
soft_is_late = λ e. cc

resolve_for_lane_lem_example :
    LaneAnswer lifecycle_genesis 2 1
      (resolve_execution_authority_for_lane lifecycle_genesis 1 700 soft_advisory)
resolve_for_lane_lem_example =
    resolve_for_lane_lem lifecycle_genesis 2 1 700 soft_advisory genesis-IsCoherent soft_is_late

lane_of-chain_at_example :
    (lane_of 1 lifecycle_genesis.active_bindings ≡ some 1)
    ↔ (chain_at 1 lifecycle_genesis.active_bindings ≡ some 1)
lane_of-chain_at_example = lane_of-chain_at lifecycle_genesis 2 1 1 genesis-IsCoherent
