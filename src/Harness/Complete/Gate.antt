-- ===== src/Harness/Complete/Gate.antt =====
-- When the completion gate is passed, and what it reports.
use litenyx.Common.{
  ℕ, ◌⊎◌, ap, ◌≡◌, ◌≢◌, ◌↔◌, inl, inr, refl, sym, ◌∙◌, Bool, true, false, not, ◌&&◌, ◌||◌, List, [],
  ◌∷◌, ◌++◌, if◌then◌else◌, arith, Bool-cases, All,
}
use litenyx.Harness.{Text, codes, is_empty, starts_with, any, TestResult, EvidenceManifest}
use litenyx.Harness.Verdict.{every_tests}
use litenyx.Harness.Envelope.{Some, Prefixed, any_iff, starts_with_iff}
use litenyx.Harness.Checks.{every_iff, empty_iff, filled_iff}
use mathlib.Core.Path.{subst}
use litenyx.Harness.Complete.{
  HCompleteResult, is_complete, missing, validate_complete, contains, empty_manifest, pick_evidence,
  named_tests_pass, validate_evidence,
}
use litenyx.Harness.Complete.Last.{
  LastWorker, pick_last, no_last, last_once, last-IsWorker, IsWorker,
}

-- The part stands somewhere in the text.
abbrev pub Within : Text → Text → Type 0
Within text part = (before : Text) × (after : Text) × (text ≡ before ++ (part ++ after))

tail_of : {x y : ℕ} {a b : Text} → x ∷ a ≡ y ∷ b → a ≡ b
tail_of e = cc

contains_iff : (text part : Text) → (contains text part ≡ true) ↔ Within text part
contains_iff [] part =
    let (a, b) = starts_with_iff [] part in
    (
      λ e. let (rest, q) = a e in ([], rest, q),
      λ (before, after, q).
          elim before as (λ x. [] ≡ x ++ (part ++ after) → starts_with [] part ≡ true) [
            | [] ↦ λ p. b (after, p)
            | y ∷ ys ↦ λ p. absurd (cc)
          ]
            q,
    )
contains_iff (c ∷ text) part =
    let (a, b) = starts_with_iff (c ∷ text) part in
    let (f, g) = contains_iff text part in
    (
      λ e. elim (Bool-cases (starts_with (c ∷ text) part)) [
        | inl s ↦ (let (rest, q) = a s in ([], rest, q))
        | inr n ↦
            let (before, after, q) = f (ground (arith, e, n)) in
            (c ∷ before, after, ap (λ (x : Text). c ∷ x) q)
      ],
      λ (before, after, q).
          elim before
              as (λ x.
                c ∷ text ≡ x ++ (part ++ after)
                → (starts_with (c ∷ text) part || contains text part) ≡ true) [
                  | [] ↦ λ p. let s = b (after, p) in ground (arith, s)
                  | y ∷ ys ↦ λ p. let s = g (ys, after, tail_of p) in ground (arith, s)
                ]
            q,
    )

-- No test whose name has the word in it failed.
abbrev pub NamedPass : Text → List TestResult → Type 0
NamedPass name ts = All (λ t. (Within t.test_name name → ⊥) ⊎ (t.passed ≡ true)) ts

test_iff :
    (name : Text) (t : TestResult)
    → (not (contains t.test_name name && not t.passed) ≡ true)
      ↔ ((Within t.test_name name → ⊥) ⊎ (t.passed ≡ true))
test_iff name t =
    let (a, b) = contains_iff t.test_name name in
    (
      λ e. elim (Bool-cases (contains t.test_name name)) [
        | inl c ↦ inr (ground (arith, e, c))
        | inr c ↦ inl (λ w. let x = b w in absurd (cc))
      ],
      λ s. elim s [
        | inl n ↦ elim (Bool-cases (contains t.test_name name)) [
          | inl c ↦ absurd (n (a c))
          | inr c ↦ ground (arith, c)
        ]
        | inr p ↦ ground (arith, p)
      ],
    )

named_iff :
    (name : Text) (ts : List TestResult) → (named_tests_pass name ts ≡ true) ↔ NamedPass name ts
named_iff name ts = every_iff _ _ (test_iff name) ts

-- The gate reports that all conjuncts hold exactly if it is complete.
missing_iff : (r : HCompleteResult) → (is_complete r ≡ true) ↔ (missing r ≡ [])
missing_iff r = ground arith

seven :
    (a b c d e f g : Bool)
    → ((a && (b && (c && (d && (e && (f && g)))))) ≡ true)
      ↔ ((a ≡ true) × (b ≡ true) × (c ≡ true) × (d ≡ true) × (e ≡ true) × (f ≡ true) × (g ≡ true))
seven a b c d e f g = ground arith

filled_not : {A : Type 0} (t : List A) → (not (is_empty t) ≡ true) ↔ (t ≢ [])
filled_not t =
    let (f, g) = filled_iff t in (λ e. f (ground arith), λ n. let x = g n in ground arith)

h8_filled : (t : Text) → starts_with t (codes "H8") ≡ true → not (is_empty t) ≡ true
h8_filled [] e = absurd (cc)
h8_filled (x ∷ t) e = refl

picked :
    (t : Bool) (m h8 : EvidenceManifest) (rest : Bool)
    → (t ≡ true → not (is_empty m.task_id) ≡ true)
    → (not (is_empty (if t then m else h8).task_id) || rest)
      ≡ (not (is_empty h8.task_id) || (t || rest))
picked true m h8 rest f = let x = f refl in ground arith
picked false m h8 rest f = refl

-- The manifest of H8 is there exactly if some task id begins with the name.
pick_h8 :
    (harness h8 : EvidenceManifest) (ms : List EvidenceManifest)
    → not (is_empty (pick_evidence harness h8 ms).1.task_id)
      ≡ (not (is_empty h8.task_id) || any (λ m. starts_with m.task_id (codes "H8")) ms)
pick_h8 harness h8 [] = ground arith
pick_h8 harness h8 (m ∷ ms) =
    let t = starts_with m.task_id (codes "H8") in
    let n : EvidenceManifest = if t then m else h8 in
    let ih =
      pick_h8 (if t then harness else if starts_with m.task_id (codes "H") then m else harness) n
        ms in
    ih ∙ picked t m h8 (any (λ k. starts_with k.task_id (codes "H8")) ms) (h8_filled m.task_id)

-- What the gate asks of the manifest of a worker.
abbrev pub WorkerHolds : EvidenceManifest → Type 0
WorkerHolds h =
    NamedPass (codes "determinism") h.test_results
    × NamedPass (codes "replay") h.test_results
    × (h.errors ≡ [])
    × All (λ t. t.passed ≡ true) h.negative_control_results
    × (h.manifest_hash ≢ [])

worker_named : (h : EvidenceManifest) → IsWorker h → h.task_id ≢ []
worker_named h ((rest, e), _) n = absurd (let q : [] ≡ codes "H" ++ rest = sym n ∙ e in cc)

gate_iff :
    (harness h8 : EvidenceManifest)
    → (is_complete (validate_evidence harness h8) ≡ true)
      ↔ ((harness.task_id ≢ []) × WorkerHolds harness × (not (is_empty h8.task_id) ≡ true))
gate_iff h h8 =
    let r = validate_evidence h h8 in
    let (f, g) =
      seven r.c_contract r.d_deterministic r.r_replayable r.t_telemetry r.m_mutation r.e_evidence
        r.v_independent in
    let (fa, ga) = filled_not h.task_id in
    let (fb, gb) = named_iff (codes "determinism") h.test_results in
    let (fc, gc) = named_iff (codes "replay") h.test_results in
    let (fd, gd) = empty_iff h.errors in
    let (fe, ge) = every_tests h.negative_control_results in
    let (ff, gf) = filled_not h.manifest_hash in
    (
      λ x. let (a, b, c, d, e, i, j) = f x in (fa a, (fb b, fc c, fd d, fe e, ff i), j),
      λ (a, (b, c, d, e, i), j). g (ga a, gb b, gc c, gd d, ge e, gf i, j),
    )

h8_iff :
    (ms : List EvidenceManifest)
    → (not (is_empty (pick_evidence empty_manifest empty_manifest ms).1.task_id) ≡ true)
      ↔ Some (λ m. Prefixed m.task_id (codes "H8")) ms
h8_iff ms =
    let v = pick_h8 empty_manifest empty_manifest ms in
    let (a, b) =
      any_iff (λ m. starts_with m.task_id (codes "H8")) (λ m. Prefixed m.task_id (codes "H8"))
        (λ m. starts_with_iff m.task_id (codes "H8")) ms in
    (λ j. a (sym v ∙ j), λ s. v ∙ b s)

-- The gate is passed exactly if some manifest is named for H8, another worker has a manifest, and the last
-- such one has no failed test of determinism or replay, no error, no failed negative control and some
-- hash; it reports then that nothing is missing. Nothing is asked of the content of the manifest of H8, and
-- no test need exist.
pub validate_complete_iff :
    (manifests : List EvidenceManifest)
    → ((is_complete (validate_complete manifests) ≡ true) ↔ (
        (h : EvidenceManifest) × LastWorker h manifests
        × WorkerHolds h
        × Some (λ m. Prefixed m.task_id (codes "H8")) manifests))
      × ((is_complete (validate_complete manifests) ≡ true)
          ↔ (missing (validate_complete manifests) ≡ []))
unfolding validate_complete
validate_complete_iff manifests =
    let p = pick_evidence empty_manifest empty_manifest manifests in
    let (f, g) = gate_iff p.0 p.1 in
    let (a, b) = h8_iff manifests in
    let picked_last = pick_last empty_manifest empty_manifest manifests in
    (
      (
        λ x.
            let (n, w, j) = f x in
            elim picked_last [
              | inl l ↦ (p.0, l, w, a j)
              | inr (_, e) ↦ absurd (n (ap (λ (m : EvidenceManifest). m.task_id) e))
            ],
        λ (h, l, w, s). elim picked_last [
          | inl k ↦
              let e = last_once h p.0 manifests l k in
              g (
                worker_named p.0 (last-IsWorker p.0 manifests k),
                subst (λ x. WorkerHolds x) e w,
                b s,
              )
          | inr (n, _) ↦ absurd (no_last h manifests n l)
        ],
      ),
      missing_iff (validate_evidence p.0 p.1),
    )
