-- ===== src/Harness/Complete.antt =====
-- harness/include/harness_promotion.h and src/harness_promotion.cpp: the completion gate.
pub mod Last
pub mod Gate
use litenyx.Common.{
  ℕ, ◌⊎◌, ap, ◌≡◌, ◌≢◌, ◌↔◌, inl, inr, refl, sym, ◌∙◌, Bool, true, false, not, ◌&&◌, ◌||◌, List, [],
  ◌∷◌, ◌++◌, if◌then◌else◌, arith, Bool-cases, All,
}
use litenyx.Harness.{
  Text, codes, is_empty, starts_with, any, every, TestResult, EvidenceManifest, check_tests,
}
use litenyx.Harness.Verdict.{every_tests}
use litenyx.Harness.Envelope.{Some, Prefixed, any_iff, starts_with_iff}
use litenyx.Harness.Checks.{every_iff, empty_iff, filled_iff}
use mathlib.Core.Path.{subst}

pub record HCompleteResult : Type 0 where
  pub c_contract : Bool
  pub d_deterministic : Bool
  pub r_replayable : Bool
  pub t_telemetry : Bool
  pub m_mutation : Bool
  pub e_evidence : Bool
  pub v_independent : Bool

abbrev pub is_complete : HCompleteResult → Bool
is_complete r =
    r.c_contract
    && (r.d_deterministic
        && (r.r_replayable
            && (r.t_telemetry && (r.m_mutation && (r.e_evidence && r.v_independent)))))

-- The name of a conjunct that does not hold, before the rest.
abbrev push_missing : Bool → Text → List Text → List Text
push_missing holds name rest = if holds then rest else name ∷ rest

abbrev pub missing : HCompleteResult → List Text
missing r = push_missing r.c_contract (codes "C_contract") (
    push_missing r.d_deterministic (codes "D_deterministic") (
      push_missing r.r_replayable (codes "R_replayable") (
        push_missing r.t_telemetry (codes "T_telemetry") (
          push_missing r.m_mutation (codes "M_mutation") (
            push_missing r.e_evidence (codes "E_evidence")
              (push_missing r.v_independent (codes "V_independent") []))))))

join_names : List Text → Text
join_names [] = []
join_names (n ∷ []) = n
join_names (n ∷ k ∷ names) = n ++ (codes ", " ++ join_names (k ∷ names))

abbrev report_missing : List Text → Text
report_missing [] = codes "ALL CONJUNCTS SATISFIED"
report_missing (n ∷ names) = codes "MISSING: " ++ join_names (n ∷ names)

pub get_missing_conjuncts : HCompleteResult → Text
get_missing_conjuncts r = report_missing (missing r)

-- `text.find(part) != npos`
abbrev pub contains : Text → Text → Bool
contains [] part = starts_with [] part
contains (c ∷ text) part = starts_with (c ∷ text) part || contains text part

-- A manifest that is declared and not set.
abbrev pub empty_manifest : EvidenceManifest
empty_manifest = record {
  task_id = [];
  authority_envelope_hash = [];
  h_msf = [];
  timestamps = [];
  canonical_input_hashes = [];
  test_results = [];
  negative_control_results = [];
  errors = [];
  manifest_hash = [];
}

-- The loop over the manifests: the last of H8, and the last of another worker.
abbrev pub pick_evidence :
    EvidenceManifest
    → EvidenceManifest
    → List EvidenceManifest
    → EvidenceManifest × EvidenceManifest
pick_evidence harness h8 [] = (harness, h8)
pick_evidence harness h8 (m ∷ ms) =
    pick_evidence
      (if starts_with m.task_id (codes "H8")
        then harness
        else if starts_with m.task_id (codes "H")
        then m
        else harness)
      (if starts_with m.task_id (codes "H8") then m else h8) ms

abbrev pub named_tests_pass : Text → List TestResult → Bool
named_tests_pass name ts = every (λ t. not (contains t.test_name name && not t.passed)) ts

abbrev pub validate_evidence : EvidenceManifest → EvidenceManifest → HCompleteResult
validate_evidence harness h8 = record {
  c_contract = not (is_empty harness.task_id);
  d_deterministic = named_tests_pass (codes "determinism") harness.test_results;
  r_replayable = named_tests_pass (codes "replay") harness.test_results;
  t_telemetry = is_empty harness.errors;
  m_mutation = check_tests harness.negative_control_results;
  e_evidence = not (is_empty harness.manifest_hash);
  v_independent = not (is_empty h8.task_id);
}

unfoldable pub validate_complete : List EvidenceManifest → HCompleteResult
validate_complete manifests =
    let e = pick_evidence empty_manifest empty_manifest manifests in validate_evidence e.0 e.1
