-- ===== src/Harness/Envelope.antt =====
-- The authority envelopes: what they allow, and the way to the executable state.
use litenyx.Common.{
  ◌≡◌, ◌↔◌, ◌⊎◌, inl, inr, refl, Bool, true, false, ◌||◌, List, [], ◌∷◌, ◌++◌, if◌then◌else◌, arith,
  Bool-cases,
}
use litenyx.Commitment.{same_bytes, same_bytes_iff}
use litenyx.Harness.{
  Text, codes, is_empty, starts_with, any, AuthorityState, blocked, preparation_only, executable,
  AuthorityEnvelope, is_path_in_scope, transition,
}

-- Some element of the list has the property.
pub data Some {ℓ κ} {A : Type ℓ} (P : A → Type κ) : List A → Type (ℓ ⊔ κ) where
  here : {x : A} {xs : List A} → P x → Some P (x ∷ xs)
  there : {x : A} {xs : List A} → Some P xs → Some P (x ∷ xs)

pub any_iff :
    {A : Type 0} (f : A → Bool) (P : A → Type 0)
    → ((x : A) → (f x ≡ true) ↔ P x)
    → (xs : List A) → (any f xs ≡ true) ↔ Some P xs
any_iff f P h [] = (λ e. absurd (cc), λ s. elim s [ ])
any_iff f P h (x ∷ xs) =
    let (a, b) = any_iff f P h xs in
    let (c, d) = h x in
    (
      λ e. elim (Bool-cases (f x)) [ inl p ↦ here (c p) | inr p ↦ there (a (ground arith)) ],
      λ s. elim s [
        | here p ↦ (let y = d p in ground arith)
        | there q ↦ (let y = b q in ground arith)
      ],
    )

pub starts_with_iff : (t p : Text) → (starts_with t p ≡ true) ↔ ((rest : Text) × (t ≡ p ++ rest))
starts_with_iff t [] = (λ _. (t, refl), λ _. refl)
starts_with_iff [] (y ∷ p) = (λ e. absurd (cc), λ (rest, e). absurd (cc))
starts_with_iff (x ∷ t) (y ∷ p) =
    let (a, b) = starts_with_iff t p in
    (
      λ e. let (rest, q) = a (ground arith) in (rest, ground arith),
      λ (rest, e). let q = b (rest, ground arith) in ground arith,
    )

-- The states that are asked for in turn; a refused one changes nothing.
unfoldable pub transitions : AuthorityState → List AuthorityState → AuthorityState
transitions s [] = s
transitions s (t ∷ ts) = transitions (transition s t).1 ts

-- An executable state is asked for, and, from the blocked one, a preparation before it.
abbrev pub AsksExecutable : List AuthorityState → Type 0
AsksExecutable ts = Some (λ t. t ≡ executable) ts

pub data AsksBoth : List AuthorityState → Type 0 where
  from_here : {ts : List AuthorityState} → AsksExecutable ts → AsksBoth (preparation_only ∷ ts)
  later : {t : AuthorityState} {ts : List AuthorityState} → AsksBoth ts → AsksBoth (t ∷ ts)

both-executable : {ts : List AuthorityState} → AsksBoth ts → AsksExecutable ts
both-executable (from_here a) = there a
both-executable (later b) = there (both-executable b)

asked :
    (ts : List AuthorityState)
    → (transitions preparation_only ts ≡ executable → AsksExecutable ts)
      × (transitions blocked ts ≡ executable → AsksBoth ts)
unfolding transitions transition
asked [] = (λ e. absurd (cc), λ e. absurd (cc))
asked (blocked ∷ ts) =
    let (p, b) = asked ts in (λ e. there (both-executable (b e)), λ e. later (b e))
asked (preparation_only ∷ ts) = let (p, b) = asked ts in (λ e. there (p e), λ e. from_here (p e))
asked (executable ∷ ts) = let (p, b) = asked ts in (λ e. here refl, λ e. later (b e))

-- From the blocked state an envelope becomes executable only by a request for preparation that a
-- request for execution follows, whatever else is asked for before, between and after.
pub blocked-executable :
    (ts : List AuthorityState) → transitions blocked ts ≡ executable → AsksBoth ts
blocked-executable ts e = (asked ts).1 e

abbrev pub Prefixed : Text → Text → Type 0
Prefixed t p = (rest : Text) × (t ≡ p ++ rest)

none_iff :
    {A : Type 0} (f : A → Bool) (P : A → Type 0)
    → ((x : A) → (f x ≡ true) ↔ P x)
    → (xs : List A) → (any f xs ≡ false) ↔ (Some P xs → ⊥)
none_iff f P h xs =
    let (a, b) = any_iff f P h xs in
    (
      λ e s. let x = b s in absurd (cc),
      λ n. elim (Bool-cases (any f xs)) [ inl e ↦ absurd (n (a e)) | inr e ↦ e ],
    )

star_iff :
    (path p : Text)
    → ((same_bytes p (codes "*") || starts_with path p) ≡ true)
      ↔ ((p ≡ codes "*") ⊎ Prefixed path p)
star_iff path p =
    let (a, b) = same_bytes_iff p (codes "*") in
    let (c, d) = starts_with_iff path p in
    (
      λ e. elim (Bool-cases (same_bytes p (codes "*"))) [
        | inl x ↦ inl (a x)
        | inr x ↦ inr (c (ground arith))
      ],
      λ s. elim s [ inl x ↦ (let y = b x in ground arith) | inr x ↦ (let y = d x in ground arith) ],
    )

scope_cases :
    (x : Bool) (l : List Text) (y : Bool)
    → ((if x then false else if is_empty l then true else y) ≡ true)
      ↔ ((x ≡ false) × ((l ≡ []) ⊎ (y ≡ true)))
scope_cases true l y = (λ e. absurd (cc), λ (e, _). absurd (cc))
scope_cases false [] y = (λ _. (refl, inl refl), λ _. refl)
scope_cases false (p ∷ l) y =
    (λ e. (refl, inr e), λ (_, c). elim c [ inl e ↦ absurd (cc) | inr e ↦ e ])

-- A path is in the scope of an envelope exactly if no prohibited entry is the star or begins it, and
-- either no path is listed as allowed or an allowed one begins it.
pub is_path_in_scope_iff :
    (e : AuthorityEnvelope) (path : Text)
    → (is_path_in_scope e path ≡ true) ↔ (
        (Some (λ p. (p ≡ codes "*") ⊎ Prefixed path p) e.prohibited_paths → ⊥)
        × ((e.allowed_paths ≡ []) ⊎ Some (λ p. Prefixed path p) e.allowed_paths))
unfolding is_path_in_scope
is_path_in_scope_iff e path =
    let (a, b) =
      none_iff (λ p. same_bytes p (codes "*") || starts_with path p)
        (λ p. (p ≡ codes "*") ⊎ Prefixed path p) (star_iff path) e.prohibited_paths in
    let (c, d) =
      any_iff (λ p. starts_with path p) (λ p. Prefixed path p) (starts_with_iff path)
        e.allowed_paths in
    let (f, g) =
      scope_cases (any (λ p. same_bytes p (codes "*") || starts_with path p) e.prohibited_paths)
        e.allowed_paths (any (λ p. starts_with path p) e.allowed_paths) in
    (
      λ h. let (x, y) = f h in (a x, elim y [ inl q ↦ inl q | inr q ↦ inr (c q) ]),
      λ (x, y). g (b x, elim y [ inl q ↦ inl q | inr q ↦ inr (d q) ]),
    )
