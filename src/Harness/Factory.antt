-- ===== src/Harness/Factory.antt =====
-- The eight envelopes of `AuthorityFactory` against the checks that read them.
pub mod Executors
pub mod Verifiers
use litenyx.Common.{
  ℕ, ◌≡◌, ◌≢◌, ◌↔◌, refl, Bool, true, false, not, ◌&&◌, ◌||◌, List, [], ◌∷◌, ◌==◌, if◌then◌else◌,
  All,
}
use litenyx.Commitment.{same_bytes, same_bytes_iff}
use litenyx.Dag.{DependencyDag}
use litenyx.Harness.{
  Text, codes, any, every, is_empty, starts_with, AuthorityEnvelope, EvidenceManifest, validate,
  is_operation_allowed, check_authority_envelope, execute_all_checks, determine_verdict,
  validate_promotion, PromotionStatistics, invalid,
}
use litenyx.Harness.Checks.{envelope_iff}
use litenyx.Harness.Verdict.{AddsUp, validate_promotion_iff}
use litenyx.Harness.Factory.Executors.{create_h1, create_h2, create_h3, create_h4}
use litenyx.Harness.Factory.Verifiers.{create_h5, create_h6, create_h7, create_h8}

abbrev pub envelopes : List AuthorityEnvelope
envelopes =
    create_h1 ∷ create_h2 ∷ create_h3 ∷ create_h4 ∷ create_h5 ∷ create_h6 ∷ create_h7 ∷ create_h8
    ∷ []

validate-envelopes : All (λ e. validate e ≡ true) envelopes
unfolding validate
validate-envelopes = (refl, (refl, (refl, (refl, (refl, (refl, (refl, (refl, tt))))))))

allowed_envelopes : All (λ e. every (is_operation_allowed e) e.allowed_operations ≡ true) envelopes
unfolding is_operation_allowed
allowed_envelopes = (refl, (refl, (refl, (refl, (refl, (refl, (refl, (refl, tt))))))))

h8_checked : check_authority_envelope create_h8 ≡ true
unfolding check_authority_envelope validate
h8_checked = refl

differ : (x y : Text) → same_bytes x y ≡ false → x ≢ y
differ x y e p = let q = (same_bytes_iff x y).1 p in absurd (cc)

module _ (sha256 : Text → Text) (stats : PromotionStatistics) (dag : DependencyDag) (id : ℕ)
    (m : EvidenceManifest) (h : AddsUp stats) where
  abbrev IsBarred : AuthorityEnvelope → Type 0
  IsBarred e = (validate_promotion sha256 stats dag id e m).0 ≡ invalid

  barred :
      (e : AuthorityEnvelope)
      → e.promote ≡ false
      → e.task_id ≢ create_h8.task_id
      → IsBarred e ↔ (e.task_id ≢ create_h8.task_id)
  barred e p d =
      let (f, g) = (validate_promotion_iff sha256 stats dag id e m h).1 in
      (λ _. d, λ _. g (λ (_, _, _, _, _, _, q, _). absurd (cc)))

  free : IsBarred create_h8 ↔ (create_h8.task_id ≢ create_h8.task_id)
  free =
      let (f, g) = (validate_promotion_iff sha256 stats dag id create_h8 m h).1 in
      (λ i. absurd (f i ((envelope_iff create_h8).0 h8_checked)), λ n. absurd (n refl))

-- Of the eight envelopes each is well-formed and prohibits no operation that it allows; and a promotion
-- under one is invalid, whatever the graph, the task and the manifest are, exactly if it is not that of H8.
pub factory_promotes :
    (sha256 : Text → Text) (stats : PromotionStatistics) (dag : DependencyDag) (id : ℕ)
    (m : EvidenceManifest)
    → AddsUp stats
    → All (λ e. validate e ≡ true) envelopes
      × All (λ e. every (is_operation_allowed e) e.allowed_operations ≡ true) envelopes
      × All
          (λ e.
            ((validate_promotion sha256 stats dag id e m).0 ≡ invalid)
            ↔ (e.task_id ≢ create_h8.task_id))
          envelopes
factory_promotes sha256 stats dag id m h =
    let b = barred sha256 stats dag id m h in
    (
      validate-envelopes,
      allowed_envelopes,
      (
        b create_h1 refl (differ create_h1.task_id create_h8.task_id refl),
        (
          b create_h2 refl (differ create_h2.task_id create_h8.task_id refl),
          (
            b create_h3 refl (differ create_h3.task_id create_h8.task_id refl),
            (
              b create_h4 refl (differ create_h4.task_id create_h8.task_id refl),
              (
                b create_h5 refl (differ create_h5.task_id create_h8.task_id refl),
                (
                  b create_h6 refl (differ create_h6.task_id create_h8.task_id refl),
                  (
                    b create_h7 refl (differ create_h7.task_id create_h8.task_id refl),
                    (free sha256 stats dag id m h, tt),
                  ),
                ),
              ),
            ),
          ),
        ),
      ),
    )
