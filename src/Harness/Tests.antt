-- ===== src/Harness/Tests.antt =====
-- An envelope and a manifest, runs on them, and the theorems at concrete inputs.
use litenyx.Common.{
  ◌++◌, ◌+◌, ◌/◌, ◌%◌, length, replicate, ◌≡◌, ◌≢◌, ◌↔◌, ◌⊎◌, refl, true, [], ◌∷◌, arith, All,
}
use litenyx.Dag.{DependencyDag, pending, given, is_task_ready}
use litenyx.Harness.{
  Text, codes, blocked, preparation_only, executable, transition, AuthorityEnvelope,
  EvidenceManifest, validate, is_path_in_scope, check_authority_envelope, check_evidence_manifest,
  serialize_manifest, finalize_manifest, execute_all_checks, determine_verdict, validate_promotion,
  blocked_by, invalid, PromotionStatistics,
}
use litenyx.Harness.Envelope.{
  transitions, AsksBoth, Some, Prefixed, blocked-executable, is_path_in_scope_iff,
}
use litenyx.Harness.Integrity.{IsCollision, finalize-unverifiable}
use litenyx.Harness.Complete.{is_complete, missing, validate_complete}
use litenyx.Harness.Complete.Gate.{validate_complete_iff}
use litenyx.Harness.Factory.{envelopes, factory_promotes}
use litenyx.Harness.Factory.Verifiers.{create_h8}
use litenyx.Harness.Verdict.{AddsUp, validate_promotion_iff}

abbrev envelope : AuthorityEnvelope
envelope = record {
  task_id = codes "H1";
  operation_class = codes "BUILD";
  source = codes "ORCH";
  state = executable;
  discover = true;
  mutate = true;
  promote = true;
  allowed_operations = [];
  prohibited_operations = [];
  immutable_inputs = codes "H_MSF:ab" ∷ [];
  dependencies = [];
  worktree = [];
  allowed_paths = codes "harness/" ∷ [];
  prohibited_paths = codes "src/" ∷ [];
  required_evidence = [];
  evidence_manifest_schema = [];
  required_passes = [];
  required_controls = [];
  invalidation_conditions = [];
}

abbrev manifest : EvidenceManifest
manifest = record {
  task_id = codes "H1";
  authority_envelope_hash = [];
  h_msf = codes "ab";
  timestamps = [];
  canonical_input_hashes = record { key = codes "H_MSF:ab"; value = [] } ∷ [];
  test_results = [];
  negative_control_results = [];
  errors = [];
  manifest_hash = [];
}

-- A stand-in for the hash: a line of 64 digits of which the last two depend on the text.
abbrev digest : Text → Text
digest x = replicate 62 48 ++ ((length x / 10 % 10 + 48) ∷ (length x % 10 + 48) ∷ [])

abbrev no_counts : PromotionStatistics
no_counts = record {
  total_validations = 0;
  eligible_promotions = 0;
  blocked_promotions = 0;
  invalid_promotions = 0;
}

abbrev one_task : DependencyDag
one_task = record {
  nodes =
      (
        1,
        record {
          task_id = 1;
          dependencies = [];
          status = pending;
          failure_reason = given "";
          evidence_hash = "";
          output_hashes = [];
        },
      )
      ∷ [];
  adjacency = (1, []) ∷ [];
  reverse_adjacency = (1, []) ∷ [];
}

in_scope : is_path_in_scope envelope (codes "harness/src/a.cpp") ≡ true
unfolding is_path_in_scope
in_scope = refl

missing_task : (validate_promotion digest no_counts one_task 7 envelope manifest).0 ≡ blocked_by
unfolding validate_promotion determine_verdict execute_all_checks check_authority_envelope validate
    is_task_ready
missing_task = refl

reached : transitions blocked (executable ∷ preparation_only ∷ executable ∷ []) ≡ executable
unfolding transitions transition
reached = refl

blocked-executable_example : AsksBoth (executable ∷ preparation_only ∷ executable ∷ [])
blocked-executable_example =
    blocked-executable (executable ∷ preparation_only ∷ executable ∷ []) reached

is_path_in_scope_iff_example : (is_path_in_scope envelope (codes "harness/src") ≡ true) ↔ (
    (Some (λ p. (p ≡ codes "*") ⊎ Prefixed (codes "harness/src") p) envelope.prohibited_paths → ⊥)
    × ((envelope.allowed_paths ≡ [])
        ⊎ Some (λ p. Prefixed (codes "harness/src") p) envelope.allowed_paths))
is_path_in_scope_iff_example = is_path_in_scope_iff envelope (codes "harness/src")

finalize-unverifiable_example :
    (check_evidence_manifest digest (finalize_manifest digest manifest) ≡ true) ↔ (
      (manifest.task_id ≢ [])
      × (manifest.h_msf ≢ [])
      × (digest (serialize_manifest manifest) ≢ [])
      × IsCollision digest
          (serialize_manifest (finalize_manifest digest manifest))
          (serialize_manifest manifest))
finalize-unverifiable_example = finalize-unverifiable digest manifest refl

validate_promotion_iff_example :
    AddsUp (validate_promotion digest no_counts one_task 1 envelope manifest).1
validate_promotion_iff_example =
    (validate_promotion_iff digest no_counts one_task 1 envelope manifest (omega arith)).3

factory_promotes_example :
    All
      (λ e.
        ((validate_promotion digest no_counts one_task 1 e manifest).0 ≡ invalid)
        ↔ (e.task_id ≢ create_h8.task_id))
      envelopes
factory_promotes_example = (factory_promotes digest no_counts one_task 1 manifest (omega arith)).2

validate_complete_iff_example :
    (is_complete (validate_complete (manifest ∷ [])) ≡ true)
    ↔ (missing (validate_complete (manifest ∷ [])) ≡ [])
validate_complete_iff_example = (validate_complete_iff (manifest ∷ [])).1
