-- ===== src/Harness/Checks.antt =====
-- What the checks of harness/src/harness_promotion.cpp ask, one by one, said without the code's tests.
use litenyx.Common.{
  ◌≡◌, ◌≢◌, ◌↔◌, ◌⊎◌, inl, inr, refl, sym, ap, ◌∙◌, Bool, true, false, ◌||◌, List, [], ◌∷◌, ◌++◌,
  if◌then◌else◌, arith, Bool-cases, All, drop,
}
use litenyx.Commitment.{same_bytes, same_bytes_iff}
use litenyx.Harness.{
  Text, h_msf_tag, is_empty, starts_with, any, every, AuthorityState, blocked, preparation_only,
  executable, AuthorityEnvelope, EvidenceManifest, EvidenceEntry, is_executable, validate,
  check_authority_envelope, check_mutation_scope, check_evidence_manifest, check_immutable_inputs,
  authority_h_msf, check_h_msf_match, serialize_manifest, compute_manifest_hash,
  verify_manifest_integrity, validate_manifest,
}
use litenyx.Harness.Envelope.{Some, Prefixed, any_iff, starts_with_iff}

pub every_iff :
    {A : Type 0} (f : A → Bool) (P : A → Type 0)
    → ((x : A) → (f x ≡ true) ↔ P x)
    → (xs : List A) → (every f xs ≡ true) ↔ All P xs
every_iff f P h [] = (λ _. tt, λ _. refl)
every_iff f P h (x ∷ xs) =
    let (a, b) = every_iff f P h xs in
    let (c, d) = h x in
    (
      λ e. (c (ground arith), a (ground arith)),
      λ (p, q). let y = d p in let z = b q in ground arith,
    )

pub empty_iff : {A : Type 0} (t : List A) → (is_empty t ≡ true) ↔ (t ≡ [])
empty_iff [] = (λ _. refl, λ _. refl)
empty_iff (x ∷ t) = (λ e. absurd (cc), λ e. absurd (cc))

pub filled_iff : {A : Type 0} (t : List A) → (is_empty t ≡ false) ↔ (t ≢ [])
filled_iff [] = (λ e. absurd (cc), λ n. absurd (n refl))
filled_iff (x ∷ t) = (λ _ e. absurd (cc), λ _. refl)

executable_iff : (s : AuthorityState) → (is_executable s ≡ true) ↔ (s ≡ executable)
executable_iff blocked = ground arith
executable_iff preparation_only = ground arith
executable_iff executable = (λ _. refl, λ _. refl)

-- The envelope names its task, operation and source, binds the contract among its inputs, may discover,
-- mutate and promote, and is executable.
abbrev pub EnvelopeHolds : AuthorityEnvelope → Type 0
EnvelopeHolds e =
    (e.task_id ≢ [])
    × (e.operation_class ≢ [])
    × (e.source ≢ [])
    × Some (λ input. Prefixed input h_msf_tag) e.immutable_inputs
    × (e.discover ≡ true)
    × (e.mutate ≡ true)
    × (e.promote ≡ true)
    × (e.state ≡ executable)

Some-filled : {A : Type 0} (P : A → Type 0) (xs : List A) → Some P xs → is_empty xs ≡ false
Some-filled P [] s = elim s [ ]
Some-filled P (x ∷ xs) s = refl

flags_iff :
    (e : AuthorityEnvelope)
    → (check_authority_envelope e ≡ true) ↔ (
        (is_empty e.task_id ≡ false)
        × (is_empty e.operation_class ≡ false)
        × (is_empty e.source ≡ false)
        × (is_empty e.immutable_inputs ≡ false)
        × (any (λ input. starts_with input h_msf_tag) e.immutable_inputs ≡ true)
        × (e.discover ≡ true)
        × (e.mutate ≡ true)
        × (e.promote ≡ true)
        × (is_executable e.state ≡ true))
unfolding check_authority_envelope validate
flags_iff e = ground arith

pub envelope_iff : (e : AuthorityEnvelope) → (check_authority_envelope e ≡ true) ↔ EnvelopeHolds e
envelope_iff e =
    let (f, g) = flags_iff e in
    let (t0, t1) = filled_iff e.task_id in
    let (o0, o1) = filled_iff e.operation_class in
    let (s0, s1) = filled_iff e.source in
    let (x0, x1) = executable_iff e.state in
    let (i0, i1) =
      any_iff (λ input. starts_with input h_msf_tag) (λ input. Prefixed input h_msf_tag)
        (λ input. starts_with_iff input h_msf_tag) e.immutable_inputs in
    (
      λ h. let (t, o, s, _, i, d, m, p, x) = f h in (t0 t, o0 o, s0 s, i0 i, d, m, p, x0 x),
      λ (t, o, s, i, d, m, p, x).
          g (t1 t, o1 o, s1 s, Some-filled _ e.immutable_inputs i, i1 i, d, m, p, x1 x),
    )

-- An envelope that may mutate has a scope.
abbrev pub HasScope : AuthorityEnvelope → Type 0
HasScope e = (e.mutate ≡ false) ⊎ (e.allowed_paths ≢ []) ⊎ (e.prohibited_paths ≢ [])

pub scope_iff : (e : AuthorityEnvelope) → (check_mutation_scope e ≡ true) ↔ HasScope e
unfolding check_mutation_scope
scope_iff e =
    let (a0, a1) = filled_iff e.allowed_paths in
    let (p0, p1) = filled_iff e.prohibited_paths in
    (
      λ h. elim (Bool-cases e.mutate) [
        | inr m ↦ inl m
        | inl m ↦ elim (Bool-cases (is_empty e.allowed_paths)) [
          | inr a ↦ inr (inl (a0 a))
          | inl a ↦ inr (inr (p0 (ground arith)))
        ]
      ],
      λ s. elim s [
        | inl m ↦ ground arith
        | inr o ↦ elim o [
          | inl a ↦ (let x = a1 a in ground arith)
          | inr p ↦ (let x = p1 p in ground arith)
        ]
      ],
    )

-- The manifest carries the hash of its own text, and names its task and contract.
abbrev pub IsIntact : (Text → Text) → EvidenceManifest → Type 0
IsIntact sha256 m =
    (sha256 (serialize_manifest m) ≡ m.manifest_hash)
    × (m.task_id ≢ [])
    × (m.h_msf ≢ [])
    × (m.manifest_hash ≢ [])

manifest_flags :
    (sha256 : Text → Text) (m : EvidenceManifest)
    → (check_evidence_manifest sha256 m ≡ true) ↔ (
        (same_bytes (sha256 (serialize_manifest m)) m.manifest_hash ≡ true)
        × (is_empty m.task_id ≡ false)
        × (is_empty m.h_msf ≡ false)
        × (is_empty m.manifest_hash ≡ false))
unfolding check_evidence_manifest verify_manifest_integrity compute_manifest_hash validate_manifest
manifest_flags sha256 m = ground arith

pub manifest_iff :
    (sha256 : Text → Text) (m : EvidenceManifest)
    → (check_evidence_manifest sha256 m ≡ true) ↔ IsIntact sha256 m
manifest_iff sha256 m =
    let (f, g) = manifest_flags sha256 m in
    let (s0, s1) = same_bytes_iff (sha256 (serialize_manifest m)) m.manifest_hash in
    let (t0, t1) = filled_iff m.task_id in
    let (h0, h1) = filled_iff m.h_msf in
    let (k0, k1) = filled_iff m.manifest_hash in
    (
      λ e. let (s, t, h, k) = f e in (s0 s, t0 t, h0 h, k0 k),
      λ (s, t, h, k). g (s1 s, t1 t, h1 h, k1 k),
    )

-- Each immutable input is a key or a value among the hashes of the manifest.
abbrev pub InputsMatch : AuthorityEnvelope → EvidenceManifest → Type 0
InputsMatch e m =
    All
      (λ input.
        Some (λ entry. (entry.key ≡ input) ⊎ (entry.value ≡ input)) m.canonical_input_hashes)
      e.immutable_inputs

entry_iff :
    (input : Text) (entry : EvidenceEntry)
    → ((same_bytes entry.key input || same_bytes entry.value input) ≡ true)
      ↔ ((entry.key ≡ input) ⊎ (entry.value ≡ input))
entry_iff input entry =
    let (k0, k1) = same_bytes_iff entry.key input in
    let (v0, v1) = same_bytes_iff entry.value input in
    (
      λ e. elim (Bool-cases (same_bytes entry.key input)) [
        | inl x ↦ inl (k0 x)
        | inr x ↦ inr (v0 (ground arith))
      ],
      λ s. elim s [
        | inl x ↦ (let y = k1 x in ground arith)
        | inr x ↦ (let y = v1 x in ground arith)
      ],
    )

pub inputs_iff :
    (e : AuthorityEnvelope) (m : EvidenceManifest)
    → (check_immutable_inputs e m ≡ true) ↔ InputsMatch e m
unfolding check_immutable_inputs
inputs_iff e m =
    every_iff _ _ (λ input. any_iff _ _ (entry_iff input) m.canonical_input_hashes)
      e.immutable_inputs

-- The first input with the tag of the contract has `h` after it.
pub FirstTagged : Text → List Text → Type 0
FirstTagged h [] = ⊥
FirstTagged h (input ∷ inputs) =
    (input ≡ h_msf_tag ++ h) ⊎ ((Prefixed input h_msf_tag → ⊥) × FirstTagged h inputs)

-- What follows the tag, where there is one.
drop-tag : (h : Text) → drop 6 (h_msf_tag ++ h) ≡ h
drop-tag h = refl

-- The contract hash of the manifest is the one that the envelope binds, and not empty.
abbrev pub ContractMatches : AuthorityEnvelope → EvidenceManifest → Type 0
ContractMatches e m = (m.h_msf ≢ []) × FirstTagged m.h_msf e.immutable_inputs

tagged_step :
    (h input : Text) (inputs : List Text)
    → h ≢ []
    → ((authority_h_msf inputs ≡ h) ↔ FirstTagged h inputs)
    → ((if starts_with input h_msf_tag then drop 6 input else authority_h_msf inputs) ≡ h)
      ↔ FirstTagged h (input ∷ inputs)
unfolding FirstTagged
tagged_step h input inputs n (f, g) =
    let (a, b) = starts_with_iff input h_msf_tag in
    (
      λ e. elim (Bool-cases (starts_with input h_msf_tag)) [
        | inl t ↦
            let (rest, q) = a t in
            let d : drop 6 input ≡ rest = ap (λ (x : Text). drop 6 x) q ∙ drop-tag rest in
            let r : rest ≡ h = sym d ∙ ground (arith, t, e) in
            inl (q ∙ ap (λ (x : Text). h_msf_tag ++ x) r)
        | inr t ↦ inr (λ p. absurd (let y = b p in cc), f (ground (arith, t, e)))
      ],
      λ s. elim s [
        | inl q ↦
            let t = b (h, q) in
            let d : drop 6 input ≡ h = ap (λ (x : Text). drop 6 x) q ∙ drop-tag h in
            ground (arith, t, d)
        | inr (other, r) ↦ elim (Bool-cases (starts_with input h_msf_tag)) [
          | inl t ↦ absurd (other (a t))
          | inr t ↦ (let y = g r in ground (arith, t, y))
        ]
      ],
    )

first_tagged :
    (h : Text) (inputs : List Text) → h ≢ [] → (authority_h_msf inputs ≡ h) ↔ FirstTagged h inputs
unfolding authority_h_msf
first_tagged h [] n = (λ e. absurd (n (sym e)), λ t. absurd (unfold FirstTagged in t))
first_tagged h (input ∷ inputs) n = tagged_step h input inputs n (first_tagged h inputs n)

pub contract_iff :
    (e : AuthorityEnvelope) (m : EvidenceManifest)
    → (check_h_msf_match e m ≡ true) ↔ ContractMatches e m
unfolding check_h_msf_match
contract_iff e m =
    let h = authority_h_msf e.immutable_inputs in
    let (f, g) = filled_iff h in
    let (a, b) = same_bytes_iff h m.h_msf in
    (
      λ c.
          let p : is_empty h ≡ false = ground arith in
          let q : h ≡ m.h_msf = a (ground arith) in
          let n : m.h_msf ≢ [] = λ x. f p (q ∙ x) in
          (n, (first_tagged m.h_msf e.immutable_inputs n).0 q),
      λ (n, t).
          let q : h ≡ m.h_msf = (first_tagged m.h_msf e.immutable_inputs n).1 t in
          let p : is_empty h ≡ false = g (λ x. n (sym q ∙ x)) in
          let r = b q in ground (arith, p, r),
    )
