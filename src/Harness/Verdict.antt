-- ===== src/Harness/Verdict.antt =====
-- `ValidatePromotion`: the verdict against what it is about, and the counters.
use litenyx.Common.{ℕ, ◌+◌, ◌≡◌, ◌↔◌, refl, Bool, true, false, List, arith, All}
use litenyx.Dag.{DependencyDag, is_task_ready}
use litenyx.Dag.Status.{IsReady, is_task_ready_iff}
use litenyx.Harness.Checks.{
  every_iff, EnvelopeHolds, envelope_iff, HasScope, scope_iff, IsIntact, manifest_iff, InputsMatch,
  inputs_iff, ContractMatches, contract_iff,
}
use litenyx.Harness.{
  Text, AuthorityEnvelope, EvidenceManifest, TestResult, check_authority_envelope,
  check_mutation_scope, check_tests, check_evidence_manifest, check_immutable_inputs,
  check_h_msf_match, execute_all_checks, determine_verdict, validate_promotion, PromotionVerdict,
  eligible, not_eligible, blocked_by, invalid, PromotionStatistics, count_verdict,
}

pub every_tests : (ts : List TestResult) → (check_tests ts ≡ true) ↔ All (λ t. t.passed ≡ true) ts
every_tests ts = every_iff _ _ (λ t. (λ e. e, λ e. e)) ts

-- What the six later checks ask.
abbrev pub EvidenceHolds : (Text → Text) → AuthorityEnvelope → EvidenceManifest → Type 0
EvidenceHolds sha256 e m =
    HasScope e
    × All (λ t. t.passed ≡ true) m.test_results
    × All (λ t. t.passed ≡ true) m.negative_control_results
    × IsIntact sha256 m
    × InputsMatch e m
    × ContractMatches e m

evidence_iff :
    (sha256 : Text → Text) (e : AuthorityEnvelope) (m : EvidenceManifest)
    → ((check_mutation_scope e ≡ true)
        × (check_tests m.test_results ≡ true)
        × (check_tests m.negative_control_results ≡ true)
        × (check_evidence_manifest sha256 m ≡ true)
        × (check_immutable_inputs e m ≡ true)
        × (check_h_msf_match e m ≡ true))
      ↔ EvidenceHolds sha256 e m
evidence_iff sha256 e m =
    let (s0, s1) = scope_iff e in
    let (f, g) = every_tests m.test_results in
    let (h, k) = every_tests m.negative_control_results in
    let (v0, v1) = manifest_iff sha256 m in
    let (i0, i1) = inputs_iff e m in
    let (a, b) = contract_iff e m in
    (
      λ (x, t, n, v, i, q). (s0 x, f t, h n, v0 v, i0 i, a q),
      λ (x, t, n, v, i, q). (s1 x, g t, k n, v1 v, i1 i, b q),
    )

eligible_iff :
    (sha256 : Text → Text) (dag : DependencyDag) (id : ℕ) (e : AuthorityEnvelope)
    (m : EvidenceManifest)
    → (determine_verdict (execute_all_checks sha256 dag id e m) ≡ eligible) ↔ (
        (check_authority_envelope e ≡ true)
        × (is_task_ready dag id ≡ true)
        × (check_mutation_scope e ≡ true)
        × (check_tests m.test_results ≡ true)
        × (check_tests m.negative_control_results ≡ true)
        × (check_evidence_manifest sha256 m ≡ true)
        × (check_immutable_inputs e m ≡ true)
        × (check_h_msf_match e m ≡ true))
unfolding determine_verdict execute_all_checks
eligible_iff sha256 dag id e m = ground arith

other_verdicts :
    (sha256 : Text → Text) (dag : DependencyDag) (id : ℕ) (e : AuthorityEnvelope)
    (m : EvidenceManifest)
    → ((determine_verdict (execute_all_checks sha256 dag id e m) ≡ invalid)
        ↔ (check_authority_envelope e ≡ false))
      × ((determine_verdict (execute_all_checks sha256 dag id e m) ≡ blocked_by)
          ↔ ((check_authority_envelope e ≡ true) × (is_task_ready dag id ≡ false)))
unfolding determine_verdict execute_all_checks
other_verdicts sha256 dag id e m = ground arith

refuted : {b : Bool} {P : Type 0} → (b ≡ true) ↔ P → (P → ⊥) → b ≡ false
refuted {b = true} (f, g) n = absurd (n (f refl))
refuted {b = false} (f, g) n = refl

-- The counters add up to the number of validations.
abbrev pub AddsUp : PromotionStatistics → Type 0
AddsUp s =
    s.total_validations ≡ s.eligible_promotions + (s.blocked_promotions + s.invalid_promotions)

count-AddsUp :
    (v : PromotionVerdict) (s : PromotionStatistics) → AddsUp s → AddsUp (count_verdict v s)
count-AddsUp eligible s h = omega arith
count-AddsUp not_eligible s h = omega arith
count-AddsUp blocked_by s h = omega arith
count-AddsUp invalid s h = omega arith

-- A promotion is eligible exactly if the envelope names its task, operation and source, binds the contract,
-- may discover, mutate and promote and is executable, the task is there and each of its dependencies is a
-- task that is completed, the envelope has a scope, all tests and negative controls passed, the manifest
-- carries the hash of its own text and names its task and contract, each immutable input is among its
-- hashes, and its contract hash is the one that the envelope binds; it is invalid exactly if the envelope
-- fails, blocked exactly if only then the task is not ready, and the counters still add up.
pub validate_promotion_iff :
    (sha256 : Text → Text) (stats : PromotionStatistics) (dag : DependencyDag) (id : ℕ)
    (e : AuthorityEnvelope) (m : EvidenceManifest)
    → AddsUp stats
    → let v = (validate_promotion sha256 stats dag id e m).0 in
      ((v ≡ eligible) ↔ (EnvelopeHolds e × IsReady dag id × EvidenceHolds sha256 e m))
      × ((v ≡ invalid) ↔ (EnvelopeHolds e → ⊥))
      × ((v ≡ blocked_by) ↔ (EnvelopeHolds e × (IsReady dag id → ⊥)))
      × AddsUp (validate_promotion sha256 stats dag id e m).1
unfolding validate_promotion
validate_promotion_iff sha256 stats dag id e m h =
    let (a, b) = eligible_iff sha256 dag id e m in
    let ((c, d), (k, l)) = other_verdicts sha256 dag id e m in
    let (f, g) = envelope_iff e in
    let (r0, r1) = is_task_ready_iff dag id in
    let (p, q) = evidence_iff sha256 e m in
    (
      (
        λ v. let (x, y, s0, s1, s2, s3, s4, s5) = a v in (f x, r0 y, p (s0, s1, s2, s3, s4, s5)),
        λ (x, y, r). let (s0, s1, s2, s3, s4, s5) = q r in b (g x, r1 y, s0, s1, s2, s3, s4, s5),
      ),
      (λ v n. let x = c v in let y = g n in absurd (cc), λ n. d (refuted (f, g) n)),
      (
        λ v. let (x, y) = k v in (f x, λ r. let z = r1 r in absurd (cc)),
        λ (x, y). l (g x, refuted (r0, r1) y),
      ),
      count-AddsUp (determine_verdict (execute_all_checks sha256 dag id e m)) stats h,
    )
