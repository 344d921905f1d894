-- ===== src/Draining/Tests.antt =====
-- The draining overlay's theorems at concrete inputs.
use litenyx.Common.{ℕ, ◌≤◌, ◌≡◌, ◌≢◌, ◌↔◌, refl, true, false, some, [], ◌∷◌, ◌++◌, arith}
use litenyx.Authority.Activation.{pre_derivation, soft_advisory}
use litenyx.Lifecycle.{
  LifecycleState, lifecycle_genesis, advance_lifecycle, active, retired, classify_chain_id, lane_of,
}
use litenyx.Lifecycle.Coherence.{IsCoherent, genesis-IsCoherent}
use litenyx.Lifecycle.Step.{LifecycleStep, LifecycleStep-IsCoherent}
use litenyx.Lifecycle.Advance.{advance_lifecycle_iff}
use litenyx.Lifecycle.Identity.{classify-active_iff}
use litenyx.Execution.{
  ExecutionAuthorityState, ExecutionAuthorityResult, chain_at, resolve_execution_authority_for_lane,
}
use litenyx.Draining.{
  DrainCommitment, is_draining, draining, validate_drain_commitment_semantics,
  project_drain_capability, resolve_drain_for_lane,
}
use litenyx.Draining.Eligible.{
  IsEligible, validate_drain_commitment_semantics_iff, drain_completes, split_suspends,
}
use litenyx.Draining.Overlay.{
  Overlaid, project_drain_capability-Overlaid, is_draining_iff, resolve_drain_for_lane_any,
}

abbrev three_lanes : LifecycleState
three_lanes = record {
  n_version = 1;
  next_chain_id = 3;
  active_bindings = lifecycle_genesis.active_bindings ++ record { lane_id = 2; chain_id = 2 } ∷ [];
  last_lifecycle_height = 100;
}

abbrev merged_lanes : LifecycleState
merged_lanes = record {
  n_version = 1;
  next_chain_id = 3;
  active_bindings = lifecycle_genesis.active_bindings;
  last_lifecycle_height = 1500;
}

three_lanes_step : LifecycleStep lifecycle_genesis 2 3 100 three_lanes
unfolding lifecycle_genesis
three_lanes_step = LifecycleStep.split refl refl (omega arith) refl

three_lanes-IsCoherent : IsCoherent three_lanes 3
three_lanes-IsCoherent =
    LifecycleStep-IsCoherent lifecycle_genesis 2 3 100 three_lanes genesis-IsCoherent (omega arith)
      three_lanes_step

three_lanes_merge : advance_lifecycle three_lanes 3 2 1500 ≡ some merged_lanes
three_lanes_merge = (advance_lifecycle_iff three_lanes 3 2 1500 merged_lanes (omega arith)).1 (
  three_lanes-IsCoherent,
  omega arith,
  LifecycleStep.merged (record { lane_id = 2; chain_id = 2 }) refl refl refl refl refl,
)

abbrev drain_two : DrainCommitment
drain_two = record { present = true; chain_id = 2; drain_start_height = 1200 }

two_has_a_lane : lane_of 2 three_lanes.active_bindings ≡ some 2
unfolding lane_of lifecycle_genesis
two_has_a_lane = refl

two_drains : is_draining three_lanes drain_two 1300 ≡ true
two_drains = (is_draining_iff three_lanes drain_two 1300).1 (
  refl,
  omega arith,
  (classify-active_iff three_lanes 3 2 three_lanes-IsCoherent).1 (2, two_has_a_lane),
)

soft_is_late : soft_advisory ≢ pre_derivation
soft_is_late = λ e. cc

drain_two-IsEligible :
    IsEligible three_lanes 3 drain_two 1300 soft_advisory ExecutionAuthorityState.authorized
drain_two-IsEligible = record {
  in_force = two_drains;
  late = soft_is_late;
  aligned = refl;
  allowed = refl;
  highest = two_has_a_lane;
}

validate_drain_commitment_semantics_iff_example :
    (validate_drain_commitment_semantics three_lanes drain_two 1300 soft_advisory
        ExecutionAuthorityState.authorized
      ≡ true)
    ↔ IsEligible three_lanes 3 drain_two 1300 soft_advisory ExecutionAuthorityState.authorized
validate_drain_commitment_semantics_iff_example =
    validate_drain_commitment_semantics_iff three_lanes 3 drain_two 1300 soft_advisory
      ExecutionAuthorityState.authorized three_lanes-IsCoherent

drain_completes_example :
    (classify_chain_id merged_lanes 2 ≡ retired)
    × ((k : ℕ) → is_draining merged_lanes drain_two k ≡ false)
drain_completes_example =
    drain_completes three_lanes 3 2 1300 1500 merged_lanes drain_two (omega arith) two_drains
      two_has_a_lane refl three_lanes_merge

abbrev four_lanes : LifecycleState
four_lanes = record {
  n_version = 1;
  next_chain_id = 4;
  active_bindings = three_lanes.active_bindings ++ record { lane_id = 3; chain_id = 3 } ∷ [];
  last_lifecycle_height = 1300;
}

three_lanes_split : advance_lifecycle three_lanes 3 4 1300 ≡ some four_lanes
three_lanes_split =
    (advance_lifecycle_iff three_lanes 3 4 1300 four_lanes (omega arith)).1
      (three_lanes-IsCoherent, omega arith, LifecycleStep.split refl refl (omega arith) refl)

split_suspends_example :
    (is_draining four_lanes drain_two 1300 ≡ true)
    × (validate_drain_commitment_semantics four_lanes drain_two 1300 soft_advisory
          ExecutionAuthorityState.authorized
        ≡ false)
split_suspends_example =
    split_suspends three_lanes 3 4 1300 1300 four_lanes drain_two soft_advisory
      ExecutionAuthorityState.authorized (omega arith) drain_two-IsEligible refl three_lanes_split

is_draining_iff_example : (is_draining three_lanes drain_two 1300 ≡ true) ↔ (
    (drain_two.present ≡ true)
    × (drain_two.drain_start_height ≤ 1300)
    × (classify_chain_id three_lanes drain_two.chain_id ≡ active))
is_draining_iff_example = is_draining_iff three_lanes drain_two 1300

abbrev lane_answer : ExecutionAuthorityResult
lane_answer = resolve_execution_authority_for_lane lifecycle_genesis 1 1300 soft_advisory

project_drain_capability-Overlaid_example :
    Overlaid lane_answer true (project_drain_capability lane_answer true)
project_drain_capability-Overlaid_example = project_drain_capability-Overlaid lane_answer true

resolve_drain_for_lane_any_example :
    ((resolve_drain_for_lane three_lanes drain_two 0 1300 soft_advisory).mode ≡ draining)
    × ((resolve_drain_for_lane three_lanes drain_two 0 1300 soft_advisory).eff_may_bind ≡ false)
    × (chain_at 0 three_lanes.active_bindings
        ≡ some (resolve_drain_for_lane three_lanes drain_two 0 1300 soft_advisory).chain_id)
resolve_drain_for_lane_any_example =
    resolve_drain_for_lane_any three_lanes 3 drain_two 0 1300 soft_advisory three_lanes-IsCoherent
      soft_is_late two_drains (omega arith)
