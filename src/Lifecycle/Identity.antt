-- ===== src/Lifecycle/Identity.antt =====
-- What becomes of a chain identity: `LitenyxClassifyChainId` and `LitenyxValidateExecutionContext`
-- along the transitions.
use litenyx.Common.{
  ℕ, ◌^◌, ◌≤◌, ◌<◌, ◌≡◌, ◌↔◌, ◌⊎◌, inl, inr, refl, true, false, none, some, List, [], ◌∷◌, ◌++◌,
  leb, ◌==◌, if◌then◌else◌, arith, Option-cases,
}
use litenyx.Lifecycle.{
  ChainIdBinding, LifecycleState, ChainIdStatus, active, retired, nonexistent, lane_of, is_some,
  classify_chain_id, validate_execution_context, advance_lifecycle,
}
use litenyx.Lifecycle.Coherence.{IsCoherent, Issued}
use litenyx.Lifecycle.Step.{LifecycleStep, held, split, merged}
use litenyx.Lifecycle.Advance.{advance_lifecycle_iff}

pub data Evolves : ChainIdStatus → ChainIdStatus → Type 0 where
  stays : {s : ChainIdStatus} → Evolves s s
  created : Evolves nonexistent active
  retires : Evolves active retired

pub lane_of-snoc :
    (c : ℕ) (bs : List ChainIdBinding) (b : ChainIdBinding)
    → lane_of c (bs ++ b ∷ []) ≡ (
        if is_some (lane_of c bs)
        then lane_of c bs
        else if b.chain_id == c
        then some b.lane_id
        else none)
unfolding lane_of
lane_of-snoc c [] b = refl
lane_of-snoc c (x ∷ bs) b = ground (arith, lane_of-snoc c bs b)

Evolves-by :
    (s t : ChainIdStatus)
    → (s ≡ t) ⊎ ((s ≡ nonexistent) × (t ≡ active)) ⊎ ((s ≡ active) × (t ≡ retired))
    → Evolves s t
Evolves-by s t (inl e) = rw e stays
Evolves-by s t (inr (inl (e, f))) = rw (e, f) created
Evolves-by s t (inr (inr (e, f))) = rw (e, f) retires

step-Evolves :
    (prev : LifecycleState) (n_prev n_cur height : ℕ) (out : LifecycleState) (c : ℕ)
    → LifecycleStep prev n_prev n_cur height out
    → Evolves (classify_chain_id prev c) (classify_chain_id out c)
unfolding classify_chain_id
step-Evolves prev n_prev n_cur height out c (held e o) = Evolves-by _ _ (ground arith)
step-Evolves prev n_prev n_cur height out c (split e a lt o) =
    let b : ChainIdBinding = record { lane_id = n_prev; chain_id = prev.next_chain_id } in
    Evolves-by _ _ (ground (arith, lane_of-snoc c prev.active_bindings b))
step-Evolves prev n_prev n_cur height out c (merged last e a l f o) =
    Evolves-by _ _ (ground (arith, lane_of-snoc c out.active_bindings last))

-- In one transition a chain identity keeps its status, is created active, or retires; nothing else.
pub advance-Evolves :
    (prev : LifecycleState) (n_prev n_cur height : ℕ) (out : LifecycleState) (c : ℕ)
    → prev.next_chain_id < 2 ^ 32
    → advance_lifecycle prev n_prev n_cur height ≡ some out
    → Evolves (classify_chain_id prev c) (classify_chain_id out c)
advance-Evolves prev n_prev n_cur height out c w s =
    let (_, _, st) = (advance_lifecycle_iff prev n_prev n_cur height out w).0 s in
    step-Evolves prev n_prev n_cur height out c st

-- Any number of transitions, each with the counts and the height of its boundary.
pub data Advances (l : LifecycleState) (n : ℕ) : LifecycleState → ℕ → Type 0 where
  here : Advances l n l n
  next :
      {m : LifecycleState} {k : ℕ}
      → Advances l n m k
      → (out : LifecycleState) (n_cur height : ℕ) → advance_lifecycle m k n_cur height ≡ some out
      → Advances l n out n_cur

advance-bound :
    (prev : LifecycleState) (n_prev n_cur height : ℕ) (out : LifecycleState)
    → prev.next_chain_id < 2 ^ 32
    → advance_lifecycle prev n_prev n_cur height ≡ some out
    → out.next_chain_id < 2 ^ 32
advance-bound prev n_prev n_cur height out w s =
    let (_, _, st) = (advance_lifecycle_iff prev n_prev n_cur height out w).0 s in go st
  where
    go : LifecycleStep prev n_prev n_cur height out → out.next_chain_id < 2 ^ 32
    go (held e o) = rw o w
    go (split e a lt o) = rw o (omega arith)
    go (merged last e a l f o) = rw o w

path-bound :
    {l : LifecycleState} {n : ℕ} {m : LifecycleState} {k : ℕ}
    → l.next_chain_id < 2 ^ 32
    → Advances l n m k
    → m.next_chain_id < 2 ^ 32
path-bound w here = w
path-bound w (next {m = m} {k = k} p out n_cur height s) =
    advance-bound m k n_cur height out (path-bound w p) s

Evolves-retired : {s t : ChainIdStatus} → Evolves s t → s ≡ retired → t ≡ retired
Evolves-retired stays e = e
Evolves-retired created e = cc
Evolves-retired retires e = cc

-- Once retired, a chain identity is retired after any number of transitions: it is never reused.
pub retired_forever :
    {l : LifecycleState} {n : ℕ} (c : ℕ) {m : LifecycleState} {k : ℕ}
    → l.next_chain_id < 2 ^ 32
    → Advances l n m k
    → classify_chain_id l c ≡ retired
    → classify_chain_id m c ≡ retired
retired_forever c w here e = e
retired_forever c w (next {m = m} {k = k} p out n_cur height s) e =
    Evolves-retired (advance-Evolves m k n_cur height out c (path-bound w p) s)
      (retired_forever c w p e)

pub Issued-lane_of :
    (bound c : ℕ) (bs : List ChainIdBinding) → Issued bound bs → bound ≤ c → lane_of c bs ≡ none
unfolding lane_of
Issued-lane_of bound c [] h le = refl
Issued-lane_of bound c (b ∷ bs) h le = ground (arith, Issued-lane_of bound c bs h.1)

-- In a coherent state the context of a chain identity is valid exactly if the identity has a lane,
-- which the context then names; otherwise the context names lane 0 and says why in its status.
pub validate_execution_context_cases :
    (l : LifecycleState) (n c height : ℕ)
    → IsCoherent l n
    → ((lane : ℕ) × (lane_of c l.active_bindings ≡ some lane)
        × (validate_execution_context l c height ≡ record {
          valid = true;
          chain_id = c;
          lane_id = lane;
          height = height;
          status = active;
        }))
      ⊎ ((lane_of c l.active_bindings ≡ none)
          × (validate_execution_context l c height ≡ record {
            valid = false;
            chain_id = c;
            lane_id = 0;
            height = height;
            status = if leb l.next_chain_id c then nonexistent else retired;
          }))
unfolding validate_execution_context classify_chain_id
validate_execution_context_cases l n c height k =
    elim (Option-cases (lane_of c l.active_bindings)) [
      | inl e ↦ inr (e, ground (arith, e))
      | inr (lane, e) ↦
          inl (
            lane,
            e,
            ground (arith, e, Issued-lane_of l.next_chain_id c l.active_bindings k.issued),
          )
    ]

-- In a coherent state the active identities are those that have a lane.
pub classify-active_iff :
    (l : LifecycleState) (n c : ℕ)
    → IsCoherent l n
    → (classify_chain_id l c ≡ active) ↔ ((lane : ℕ) × (lane_of c l.active_bindings ≡ some lane))
unfolding classify_chain_id
classify-active_iff l n c k = elim (Option-cases (lane_of c l.active_bindings)) [
  | inl e ↦ (λ h. absurd (ground (arith, e)), λ (x, f). cc (e, f))
  | inr (lane, e) ↦ (
    λ h. (lane, e),
    λ _. ground (arith, e, Issued-lane_of l.next_chain_id c l.active_bindings k.issued),
  )
]

pub active-then : {s t : ChainIdStatus} → Evolves s t → s ≡ active → (t ≡ active) ⊎ (t ≡ retired)
active-then stays e = inl e
active-then created e = cc
active-then retires e = inr refl
