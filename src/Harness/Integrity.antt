-- ===== src/Harness/Integrity.antt =====
-- A manifest's own hash in the text that is hashed.
use litenyx.Common.{
  ◌≡◌, ◌≢◌, ◌↔◌, refl, sym, ap, ◌∙◌, true, [], ◌∷◌, ◌++◌, arith, length, length-append,
}
use litenyx.Harness.{
  Text, EvidenceManifest, serialize_manifest, serialize_head, serialize_tail, compute_manifest_hash,
  finalize_manifest, check_evidence_manifest,
}
use litenyx.Harness.Checks.{manifest_iff}

append-left : (x y z : Text) → x ++ y ≡ x ++ z → length y ≡ length z
append-left x y z e =
    let l = ap (λ (t : Text). length t) e in omega (arith, length-append x y, length-append x z)

finalized-head :
    (sha256 : Text → Text) (m : EvidenceManifest)
    → serialize_head (finalize_manifest sha256 m) ≡ serialize_head m
unfolding finalize_manifest serialize_head
finalized-head sha256 m = refl

finalized-tail :
    (sha256 : Text → Text) (m : EvidenceManifest)
    → serialize_tail (finalize_manifest sha256 m) ≡ serialize_tail m
unfolding finalize_manifest serialize_tail
finalized-tail sha256 m = refl

no_bytes : (x : Text) → length x ≡ 0 → x ≡ []
no_bytes [] e = refl
no_bytes (y ∷ x) e = absurd (omega arith)

-- The two texts agree up to the hash, and after it.
same_length :
    (sha256 : Text → Text) (m : EvidenceManifest)
    → m.manifest_hash ≡ []
    → serialize_manifest (finalize_manifest sha256 m) ≡ serialize_manifest m
    → length (compute_manifest_hash sha256 m) ≡ 0
unfolding serialize_manifest
same_length sha256 m e s =
    let f = finalize_manifest sha256 m in
    let l =
      append-left (serialize_head m) (f.manifest_hash ++ serialize_tail f)
        (m.manifest_hash ++ serialize_tail m)
        (ap (λ (t : Text). t ++ (f.manifest_hash ++ serialize_tail f))
            (sym (finalized-head sha256 m))
          ∙ s) in
    let x = length-append f.manifest_hash (serialize_tail f) in
    let y = length-append m.manifest_hash (serialize_tail m) in
    let z = ap (λ (t : Text). length t) (finalized-tail sha256 m) in
    let w = ap (λ (t : Text). length t) e in
    let q : length f.manifest_hash ≡ 0 = omega arith in unfold finalize_manifest in q

no_hash :
    (sha256 : Text → Text) (m : EvidenceManifest)
    → (finalize_manifest sha256 m).manifest_hash ≡ sha256 (serialize_manifest m)
unfolding finalize_manifest compute_manifest_hash
no_hash sha256 m = refl

-- Two different texts with one hash.
abbrev pub IsCollision : (Text → Text) → Text → Text → Type 0
IsCollision sha256 x y = (x ≢ y) × (sha256 x ≡ sha256 y)

texts_differ :
    (sha256 : Text → Text) (m : EvidenceManifest)
    → m.manifest_hash ≡ []
    → sha256 (serialize_manifest m) ≢ []
    → serialize_manifest (finalize_manifest sha256 m) ≢ serialize_manifest m
texts_differ sha256 m e n s = n (
    unfold compute_manifest_hash in
    no_bytes (compute_manifest_hash sha256 m) (same_length sha256 m e s))

-- A manifest that is finalized as it was made, with no hash yet, passes the check of a promotion exactly if it
-- names its task and contract, its hash is not empty, and the text with the hash in it collides with
-- the text without: unless there is a collision of the hash, it fails.
pub finalize-unverifiable :
    (sha256 : Text → Text) (m : EvidenceManifest)
    → m.manifest_hash ≡ []
    → (check_evidence_manifest sha256 (finalize_manifest sha256 m) ≡ true) ↔ (
        (m.task_id ≢ [])
        × (m.h_msf ≢ [])
        × (sha256 (serialize_manifest m) ≢ [])
        × IsCollision sha256
            (serialize_manifest (finalize_manifest sha256 m))
            (serialize_manifest m))
finalize-unverifiable sha256 m e =
    let f = finalize_manifest sha256 m in
    let h = no_hash sha256 m in
    let t : f.task_id ≡ m.task_id = unfold finalize_manifest in refl in
    let c : f.h_msf ≡ m.h_msf = unfold finalize_manifest in refl in
    let (a, b) = manifest_iff sha256 f in
    (
      λ x.
          let (s, p, q, r) = a x in
          let n : sha256 (serialize_manifest m) ≢ [] = λ z. r (h ∙ z) in
          (λ z. p (t ∙ z), λ z. q (c ∙ z), n, (texts_differ sha256 m e n, s ∙ h)),
      λ (p, q, n, (_, s)).
          b (s ∙ sym h, λ z. p (sym t ∙ z), λ z. q (sym c ∙ z), λ z. n (sym h ∙ z)),
    )
