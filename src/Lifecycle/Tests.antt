-- ===== src/Lifecycle/Tests.antt =====
-- Runs of the lifecycle, and its theorems at concrete inputs.
use litenyx.Common.{
  min, ℕ, ◌+◌, ◌/◌, ◌≤◌, ◌≡◌, ◌↔◌, ◌⊎◌, inl, inr, refl, true, false, none, some, List, [], ◌∷◌,
  length, arith, leb, if◌then◌else◌,
}
use litenyx.Common.Int.{pos}
use litenyx.Topology.{obs_window}
use litenyx.Topology.Apply.{InRange}
use litenyx.Authority.{CommittedBlock, genesis, expected_topology_from_chain}
use litenyx.Lifecycle.{
  ChainIdBinding, LifecycleState, advance_lifecycle, advance_split, advance_merge, retire_lane,
  lifecycle_state_coherent, is_count, bindings_coherent, is_new_chain_id, active, retired,
  nonexistent, classify_chain_id, lane_of, validate_execution_context,
  expected_lifecycle_from_chain,
}
use litenyx.Lifecycle.Coherence.{IsCoherent, lifecycle_state_coherent_iff}
use litenyx.Lifecycle.Step.{LifecycleStep}
use litenyx.Lifecycle.Advance.{advance_lifecycle_iff, advance_lifecycle_total}
use litenyx.Lifecycle.Identity.{
  Evolves, advance-Evolves, Advances, retired_forever, validate_execution_context_cases,
  classify-active_iff,
}
use litenyx.Lifecycle.Encoding.{Fits, serialize_lifecycle_state-injective}
use litenyx.Lifecycle.Chain.{expected_lifecycle_from_chain_total}

abbrev bind : ℕ → ℕ → ChainIdBinding
bind lane c = record { lane_id = lane; chain_id = c }

abbrev two_lanes : LifecycleState
two_lanes = record {
  n_version = 1;
  next_chain_id = 2;
  active_bindings = bind 0 0 ∷ bind 1 1 ∷ [];
  last_lifecycle_height = 0;
}

-- After a split at height 100.
abbrev three_lanes : LifecycleState
three_lanes = record {
  n_version = 1;
  next_chain_id = 3;
  active_bindings = bind 0 0 ∷ bind 1 1 ∷ bind 2 2 ∷ [];
  last_lifecycle_height = 100;
}

-- After a merge at height 500.
abbrev merged_lanes : LifecycleState
merged_lanes = record {
  n_version = 1;
  next_chain_id = 3;
  active_bindings = bind 0 0 ∷ bind 1 1 ∷ [];
  last_lifecycle_height = 500;
}

-- After a second split, at height 900.
abbrev split_again : LifecycleState
split_again = record {
  n_version = 1;
  next_chain_id = 4;
  active_bindings = bind 0 0 ∷ bind 1 1 ∷ bind 2 3 ∷ [];
  last_lifecycle_height = 900;
}

two_lanes-IsCoherent : IsCoherent two_lanes 2
unfolding lifecycle_state_coherent is_count bindings_coherent is_new_chain_id
two_lanes-IsCoherent = (lifecycle_state_coherent_iff two_lanes 2).0 refl

two_lanes_split : advance_lifecycle two_lanes 2 3 100 ≡ some three_lanes
unfolding advance_lifecycle advance_split lifecycle_state_coherent is_count bindings_coherent
    is_new_chain_id
two_lanes_split = refl

three_lanes_merge : advance_lifecycle three_lanes 3 2 500 ≡ some merged_lanes
unfolding advance_lifecycle advance_merge retire_lane lifecycle_state_coherent is_count
    bindings_coherent is_new_chain_id
three_lanes_merge = refl

merged_lanes_split : advance_lifecycle merged_lanes 2 3 900 ≡ some split_again
unfolding advance_lifecycle advance_split lifecycle_state_coherent is_count bindings_coherent
    is_new_chain_id
merged_lanes_split = refl

advance_lifecycle_iff_example :
    (advance_lifecycle two_lanes 2 3 100 ≡ some three_lanes)
    ↔ (IsCoherent two_lanes 2 × InRange 3 × LifecycleStep two_lanes 2 3 100 three_lanes)
advance_lifecycle_iff_example = advance_lifecycle_iff two_lanes 2 3 100 three_lanes (omega arith)

advance_lifecycle_total_example :
    (out : LifecycleState) × (advance_lifecycle two_lanes 2 3 100 ≡ some out)
advance_lifecycle_total_example =
    advance_lifecycle_total two_lanes 2 3 100 two_lanes-IsCoherent (omega arith) (inr (inl refl))
      refl (omega arith)

abbrev one_block : List CommittedBlock
one_block = record { chain_id = 0; block_weight = pos 5 } ∷ []

expected_lifecycle_from_chain_total_example :
    (out : LifecycleState) × (expected_lifecycle_from_chain one_block 1 ≡ some out)
    × IsCoherent out (expected_topology_from_chain genesis one_block 1).n_n
    × (out.next_chain_id ≤ 2 + min 1 (length one_block) / obs_window)
expected_lifecycle_from_chain_total_example =
    expected_lifecycle_from_chain_total one_block 1 (omega arith)

lifecycle_state_coherent_iff_example :
    (lifecycle_state_coherent two_lanes 2 ≡ true) ↔ IsCoherent two_lanes 2
lifecycle_state_coherent_iff_example = lifecycle_state_coherent_iff two_lanes 2

advance-Evolves_example : Evolves (classify_chain_id two_lanes 2) (classify_chain_id three_lanes 2)
advance-Evolves_example =
    advance-Evolves two_lanes 2 3 100 three_lanes 2 (omega arith) two_lanes_split

identity_2_retires : classify_chain_id merged_lanes 2 ≡ retired
unfolding classify_chain_id lane_of
identity_2_retires = refl

retired_forever_example : classify_chain_id split_again 2 ≡ retired
retired_forever_example =
    retired_forever {l = merged_lanes} {n = 2} 2 {m = split_again} {k = 3} (omega arith)
      (Advances.next Advances.here split_again 3 900 merged_lanes_split) identity_2_retires

classify-active_iff_example :
    (classify_chain_id two_lanes 1 ≡ active)
    ↔ ((lane : ℕ) × (lane_of 1 two_lanes.active_bindings ≡ some lane))
classify-active_iff_example = classify-active_iff two_lanes 2 1 two_lanes-IsCoherent

validate_execution_context_cases_example :
    ((lane : ℕ) × (lane_of 1 two_lanes.active_bindings ≡ some lane)
      × (validate_execution_context two_lanes 1 70
          ≡ record { valid = true; chain_id = 1; lane_id = lane; height = 70; status = active }))
    ⊎ ((lane_of 1 two_lanes.active_bindings ≡ none)
        × (validate_execution_context two_lanes 1 70 ≡ record {
          valid = false;
          chain_id = 1;
          lane_id = 0;
          height = 70;
          status = if leb two_lanes.next_chain_id 1 then nonexistent else retired;
        }))
validate_execution_context_cases_example =
    validate_execution_context_cases two_lanes 2 1 70 two_lanes-IsCoherent

two_lanes-Fits : Fits two_lanes
two_lanes-Fits = record {
  version = omega arith;
  next_id = omega arith;
  few = omega arith;
  bindings = ((omega arith, omega arith), ((omega arith, omega arith), tt));
  last = omega arith;
}

serialize_lifecycle_state-injective_example : two_lanes ≡ two_lanes
serialize_lifecycle_state-injective_example =
    serialize_lifecycle_state-injective two_lanes two_lanes two_lanes-Fits two_lanes-Fits refl
