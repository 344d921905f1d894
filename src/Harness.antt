-- ===== src/Harness.antt =====
-- harness/src: the authority envelopes (harness_authority), the evidence manifests (harness_evidence) and
-- the promotion gate (harness_promotion). A text is the list of its bytes. The record of
-- a manifest holds the fields that the modelled functions read. The hash that certutil computes is a parameter.
pub mod Bytes
pub mod Authority
pub mod Evidence
pub mod Envelope
pub mod Integrity
pub mod Checks
pub mod Verdict
pub mod Factory
pub mod Complete
mod Tests
use litenyx.Common.{
  ℕ, zero, suc, Bool, true, false, not, ◌&&◌, ◌||◌, Option, none, some, List, [], ◌∷◌, ◌++◌, ◌==◌,
  if◌then◌else◌, drop, length,
}
use litenyx.Commitment.{same_bytes}
use litenyx.Dag.{DependencyDag, is_task_ready}
pub use Bytes.{Text, codes, is_empty, starts_with, any, every}
pub use Authority.{
  AuthorityState, blocked, preparation_only, executable, AuthorityEnvelope, h_msf_tag,
  is_valid_transition,
}
unfoldable pub use Authority.{validate, is_operation_allowed, is_path_in_scope, transition}
pub use Evidence.{TestResult, EvidenceEntry, EvidenceManifest}
unfoldable pub use Evidence.{
  serialize_head, serialize_tail, serialize_manifest, validate_manifest, compute_manifest_hash,
  finalize_manifest, verify_manifest_integrity,
}

pub data CheckName : Type 0 where
  authority_envelope_validity dependency_status mutation_scope_validity test_pass : CheckName
  negative_control_pass evidence_manifest_validity immutable_input_match h_msf_match : CheckName

-- The texts of the details and of the reasons are not modelled.
pub record PromotionCheck : Type 0 where
  pub check_name : CheckName
  pub passed : Bool

pub data PromotionVerdict : Type 0 where
  eligible not_eligible blocked_by invalid : PromotionVerdict

abbrev pub is_executable : AuthorityState → Bool
is_executable executable = true
is_executable _ = false

unfoldable pub check_authority_envelope : AuthorityEnvelope → Bool
check_authority_envelope e =
    if not (validate e) then false else if not e.promote then false else is_executable e.state

unfoldable pub check_mutation_scope : AuthorityEnvelope → Bool
check_mutation_scope e =
    if e.mutate then not (is_empty e.allowed_paths && is_empty e.prohibited_paths) else true

abbrev pub check_tests : List TestResult → Bool
check_tests ts = every (λ t. t.passed) ts

unfoldable pub check_immutable_inputs : AuthorityEnvelope → EvidenceManifest → Bool
check_immutable_inputs e m =
    every
      (λ input.
        any (λ entry. same_bytes entry.key input || same_bytes entry.value input)
          m.canonical_input_hashes)
      e.immutable_inputs

-- The rest of the first input with the tag, or the empty text.
unfoldable pub authority_h_msf : List Text → Text
authority_h_msf [] = []
authority_h_msf (input ∷ inputs) =
    if starts_with input h_msf_tag then drop 6 input else authority_h_msf inputs

unfoldable pub check_h_msf_match : AuthorityEnvelope → EvidenceManifest → Bool
check_h_msf_match e m =
    let h = authority_h_msf e.immutable_inputs in if is_empty h then false else same_bytes h m.h_msf

abbrev check : CheckName → Bool → PromotionCheck
check n b = record { check_name = n; passed = b }

abbrev pub failure_verdict : CheckName → PromotionVerdict
failure_verdict dependency_status = blocked_by
failure_verdict authority_envelope_validity = invalid
failure_verdict _ = not_eligible

unfoldable pub determine_verdict : List PromotionCheck → PromotionVerdict
determine_verdict [] = eligible
determine_verdict (c ∷ checks) =
    if not c.passed then failure_verdict c.check_name else determine_verdict checks

pub record PromotionStatistics : Type 0 where
  pub total_validations : ℕ
  pub eligible_promotions : ℕ
  pub blocked_promotions : ℕ
  pub invalid_promotions : ℕ

abbrev pub count_verdict : PromotionVerdict → PromotionStatistics → PromotionStatistics
count_verdict v s = record {
  total_validations = suc s.total_validations;
  eligible_promotions = elim v [ eligible ↦ suc s.eligible_promotions | _ ↦ s.eligible_promotions ];
  blocked_promotions = elim v [
    | not_eligible ↦ suc s.blocked_promotions
    | blocked_by ↦ suc s.blocked_promotions
    | _ ↦ s.blocked_promotions
  ];
  invalid_promotions = elim v [ invalid ↦ suc s.invalid_promotions | _ ↦ s.invalid_promotions ];
}

module _ (sha256 : Text → Text) where
  unfoldable pub check_evidence_manifest : EvidenceManifest → Bool
  check_evidence_manifest m =
      if not (verify_manifest_integrity sha256 m) then false else validate_manifest m

  -- `CheckDependencyStatus` tests what `IsTaskReady` tests.
  unfoldable pub execute_all_checks :
      DependencyDag → ℕ → AuthorityEnvelope → EvidenceManifest → List PromotionCheck
  execute_all_checks dag task_id e m =
      check authority_envelope_validity (check_authority_envelope e)
      ∷ check dependency_status (is_task_ready dag task_id)
      ∷ check mutation_scope_validity (check_mutation_scope e)
      ∷ check test_pass (check_tests m.test_results)
      ∷ check negative_control_pass (check_tests m.negative_control_results)
      ∷ check evidence_manifest_validity (check_evidence_manifest m)
      ∷ check immutable_input_match (check_immutable_inputs e m)
      ∷ check h_msf_match (check_h_msf_match e m)
      ∷ []

  unfoldable pub validate_promotion :
      PromotionStatistics
      → DependencyDag
      → ℕ
      → AuthorityEnvelope
      → EvidenceManifest
      → PromotionVerdict × PromotionStatistics
  validate_promotion stats dag task_id e m =
      let v = determine_verdict (execute_all_checks dag task_id e m) in (v, count_verdict v stats)
