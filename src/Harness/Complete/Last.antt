-- ===== src/Harness/Complete/Last.antt =====
-- The manifest that the loop of the completion gate keeps: the last of a worker other than H8.
use litenyx.Common.{
  ◌⊎◌, ◌≡◌, ◌↔◌, inl, inr, refl, sym, ◌∙◌, Bool, true, false, List, [], ◌∷◌, if◌then◌else◌, arith,
  Bool-cases, All,
}
use litenyx.Harness.{codes, starts_with, EvidenceManifest}
use litenyx.Harness.Envelope.{Prefixed, starts_with_iff}
use mathlib.Core.Path.{subst}
use litenyx.Harness.Complete.{pick_evidence}

-- The manifest is that of a worker other than H8, by its name.
abbrev pub IsWorker : EvidenceManifest → Type 0
IsWorker m = Prefixed m.task_id (codes "H") × (Prefixed m.task_id (codes "H8") → ⊥)

abbrev pub NoWorker : List EvidenceManifest → Type 0
NoWorker ms = All (λ m. IsWorker m → ⊥) ms

-- `h` is the last manifest of another worker than H8.
pub data LastWorker (h : EvidenceManifest) : List EvidenceManifest → Type 0 where
  at : {ms : List EvidenceManifest} → IsWorker h → NoWorker ms → LastWorker h (h ∷ ms)
  after :
      {m : EvidenceManifest} {ms : List EvidenceManifest} → LastWorker h ms → LastWorker h (m ∷ ms)

picks : EvidenceManifest → Bool
picks m = if starts_with m.task_id (codes "H8") then false else starts_with m.task_id (codes "H")

picks_iff : (m : EvidenceManifest) → (picks m ≡ true) ↔ IsWorker m
unfolding picks
picks_iff m =
    let (a, b) = starts_with_iff m.task_id (codes "H") in
    let (c, d) = starts_with_iff m.task_id (codes "H8") in
    (
      λ e. (a (ground (arith, e)), λ p. let x = d p in absurd (ground (arith, e, x))),
      λ (p, n). elim (Bool-cases (starts_with m.task_id (codes "H8"))) [
        | inl x ↦ absurd (n (c x))
        | inr x ↦ (let y = b p in ground (arith, x, y))
      ],
    )

step_picks :
    (harness m : EvidenceManifest)
    → (if starts_with m.task_id (codes "H8")
        then harness
        else if starts_with m.task_id (codes "H")
        then m
        else harness)
      ≡ (if picks m then m else harness)
unfolding picks
step_picks harness m = elim (Bool-cases (starts_with m.task_id (codes "H8"))) [
  | inl x ↦ rw x refl
  | inr x ↦ rw x refl
]

-- What the loop keeps: the last manifest of a worker, or what it began with.
pub pick_last :
    (harness h8 : EvidenceManifest) (ms : List EvidenceManifest)
    → LastWorker (pick_evidence harness h8 ms).0 ms
      ⊎ (NoWorker ms × ((pick_evidence harness h8 ms).0 ≡ harness))
pick_last harness h8 [] = inr (tt, refl)
pick_last harness h8 (m ∷ ms) =
    let next =
      if starts_with m.task_id (codes "H8")
      then harness
      else if starts_with m.task_id (codes "H")
      then m
      else harness in
    let n8 = if starts_with m.task_id (codes "H8") then m else h8 in
    let s = step_picks harness m in
    let (a, b) = picks_iff m in
    elim (pick_last next n8 ms) [
      | inl l ↦ inl (after l)
      | inr (none, e) ↦ elim (Bool-cases (picks m)) [
        | inl p ↦
            let q : m ≡ (pick_evidence next n8 ms).0 = sym (e ∙ s ∙ rw p refl) in
            inl (subst (λ x. LastWorker x (m ∷ ms)) q (at (a p) none))
        | inr p ↦ inr ((λ w. let x = b w in absurd (cc), none), e ∙ s ∙ rw p refl)
      ]
    ]

pub no_last :
    (h : EvidenceManifest) (ms : List EvidenceManifest) → NoWorker ms → LastWorker h ms → ⊥
no_last h ms n (at w k) = n.0 w
no_last h ms n (after l) = no_last h _ n.1 l

pub last_once :
    (h k : EvidenceManifest) (ms : List EvidenceManifest)
    → LastWorker h ms
    → LastWorker k ms
    → h ≡ k
last_once h k ms (at w n) (at v l) = refl
last_once h k ms (at w n) (after l) = absurd (no_last k _ n l)
last_once h k ms (after l) (at v n) = absurd (no_last h _ n l)
last_once h k ms (after l) (after r) = last_once h k _ l r

pub last-IsWorker :
    (h : EvidenceManifest) (ms : List EvidenceManifest) → LastWorker h ms → IsWorker h
last-IsWorker h ms (at w n) = w
last-IsWorker h ms (after l) = last-IsWorker h _ l
