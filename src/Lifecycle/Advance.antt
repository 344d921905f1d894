-- ===== src/Lifecycle/Advance.antt =====
-- `LitenyxAdvanceChainIdLifecycle` against the step relation of Lifecycle/Step.
use litenyx.Common.{
  ℕ, ◌+◌, ◌%◌, ◌^◌, ◌<◌, ◌≡◌, ◌≢◌, ◌↔◌, ◌⊎◌, inl, inr, refl, sym, ap, ◌∙◌, true, Option, some, List,
  [], ◌∷◌, ◌++◌, length, arith, length-append, split_last,
}
use litenyx.Common.Words.{u32, u32_max}
use litenyx.Topology.Apply.{InRange}
use litenyx.Topology.{obs_window}
use litenyx.Lifecycle.{
  ChainIdBinding, LifecycleState, lifecycle_state_version, is_count, lifecycle_state_coherent,
  retire_lane, advance_lifecycle,
}
use litenyx.Lifecycle.Step.{
  LifecycleStep, held, split, merged, LanesFrom-snoc, LifecycleStep-IsCoherent, retire_lane-last,
  is_count-InRange,
}
use litenyx.Lifecycle.Coherence.{IsCoherent, lifecycle_state_coherent_iff}

coherent_true : (l : LifecycleState) (n : ℕ) → IsCoherent l n → lifecycle_state_coherent l n ≡ true
coherent_true l n = (lifecycle_state_coherent_iff l n).1

module _ (prev : LifecycleState) (n_prev n_cur height : ℕ) (c : IsCoherent prev n_prev)
    (r : InRange n_cur) where
  advance_held :
      n_cur ≡ n_prev
      → advance_lifecycle prev n_prev n_cur height
        ≡ some (record prev { n_version = lifecycle_state_version })
  unfolding advance_lifecycle
  advance_held e =
      let out : LifecycleState = record prev { n_version = lifecycle_state_version } in
      let ok =
        coherent_true out n_cur
          (LifecycleStep-IsCoherent prev n_prev n_cur height out c r (held e refl)) in
      ground (
        arith,
        ok,
        coherent_true prev n_prev c,
        (is_count-InRange n_prev).1 c.in_range,
        (is_count-InRange n_cur).1 r,
      )

  advance_splits :
      n_cur ≡ n_prev + 1
      → height % obs_window ≡ 0
      → prev.next_chain_id < u32_max
      → advance_lifecycle prev n_prev n_cur height
        ≡ some (record {
          n_version = lifecycle_state_version;
          next_chain_id = prev.next_chain_id + 1;
          active_bindings =
              prev.active_bindings
              ++ record { lane_id = n_prev; chain_id = prev.next_chain_id } ∷ [];
          last_lifecycle_height = height;
        })
  unfolding advance_lifecycle
  advance_splits e a lt =
      let out : LifecycleState = record {
        n_version = lifecycle_state_version;
        next_chain_id = prev.next_chain_id + 1;
        active_bindings =
            prev.active_bindings ++ record { lane_id = n_prev; chain_id = prev.next_chain_id } ∷ [];
        last_lifecycle_height = height;
      } in
      let ok =
        coherent_true out n_cur
          (LifecycleStep-IsCoherent prev n_prev n_cur height out c r (split e a lt refl)) in
      let w : u32 (prev.next_chain_id + 1) ≡ prev.next_chain_id + 1 = omega arith in
      ground (
        arith,
        ok,
        w,
        coherent_true prev n_prev c,
        (is_count-InRange n_prev).1 c.in_range,
        (is_count-InRange n_cur).1 r,
      )

  advance_merged :
      (front : List ChainIdBinding) (last : ChainIdBinding)
      → n_prev ≡ n_cur + 1
      → height % obs_window ≡ 0
      → prev.active_bindings ≡ front ++ last ∷ []
      → last.lane_id ≡ n_cur
      → advance_lifecycle prev n_prev n_cur height
        ≡ some (record {
          n_version = lifecycle_state_version;
          next_chain_id = prev.next_chain_id;
          active_bindings = front;
          last_lifecycle_height = height;
        })
  unfolding advance_lifecycle
  advance_merged front last e a f l =
      let out : LifecycleState = record {
        n_version = lifecycle_state_version;
        next_chain_id = prev.next_chain_id;
        active_bindings = front;
        last_lifecycle_height = height;
      } in
      let ok =
        coherent_true out n_cur
          (LifecycleStep-IsCoherent prev n_prev n_cur height out c r (merged last e a l f refl)) in
      let (lanes, _) = (LanesFrom-snoc 0 front last).0 (rw f at c.lanes) in
      let size : n_cur ≡ length front =
        omega (arith, ap length f, length-append front (last ∷ []), c.count) in
      let gone : retire_lane n_cur prev.active_bindings ≡ some front =
        rw f (retire_lane-last 0 n_cur front last lanes l (omega arith)) in
      ground (
        arith,
        ok,
        gone,
        coherent_true prev n_prev c,
        (is_count-InRange n_prev).1 c.in_range,
        (is_count-InRange n_cur).1 r,
      )

-- What the guards let through, read off a successful call.
record Admitted (prev : LifecycleState) (n_prev n_cur height : ℕ) : Type 0 where
  coherent : lifecycle_state_coherent prev n_prev ≡ true
  count_ok : is_count n_cur ≡ true
  near :
      (n_cur ≡ n_prev)
      ⊎ ((n_cur ≡ n_prev + 1) × (height % obs_window ≡ 0) × (prev.next_chain_id ≢ u32_max))
      ⊎ ((n_prev ≡ n_cur + 1) × (height % obs_window ≡ 0))

advance-Admitted :
    (prev : LifecycleState) (n_prev n_cur height : ℕ) (out : LifecycleState)
    → advance_lifecycle prev n_prev n_cur height ≡ some out
    → Admitted prev n_prev n_cur height
unfolding advance_lifecycle
advance-Admitted prev n_prev n_cur height out e = ground arith

some_eq {ℓ} : {A : Type ℓ} {a b : A} {o : Option A} → o ≡ some a → o ≡ some b → b ≡ a
some_eq p q = cc

merged_step :
    (prev : LifecycleState) (n_prev n_cur height : ℕ) (out : LifecycleState)
    → IsCoherent prev n_prev
    → InRange n_cur
    → n_prev ≡ n_cur + 1
    → height % obs_window ≡ 0
    → advance_lifecycle prev n_prev n_cur height ≡ some out
    → LifecycleStep prev n_prev n_cur height out
merged_step prev n_prev n_cur height out c r e a s =
    let (front, last, f, len) = split_last n_cur prev.active_bindings (omega (arith, c.count)) in
    let (_, l) = (LanesFrom-snoc 0 front last).0 (rw f at c.lanes) in
    let o : out ≡ record {
      n_version = lifecycle_state_version;
      next_chain_id = prev.next_chain_id;
      active_bindings = front;
      last_lifecycle_height = height;
    } =
      some_eq (advance_merged prev n_prev n_cur height c r front last e a f (omega arith)) s in
    merged last e a (omega arith)
      (f ∙ ap (λ (x : LifecycleState). x.active_bindings ++ last ∷ []) (sym o))
      (o
        ∙ ap
            (λ (x : LifecycleState). record {
              n_version = lifecycle_state_version;
              next_chain_id = prev.next_chain_id;
              active_bindings = x.active_bindings;
              last_lifecycle_height = height;
            })
            (sym o))

-- From a 32-bit `nextChainId`, the transition succeeds with a state exactly if the state before is
-- coherent, the new count is in range, and the relation has the step: to keep everything, to bind
-- one lane to the next identity, or to retire the highest lane, the last two at a boundary only.
pub advance_lifecycle_iff :
    (prev : LifecycleState) (n_prev n_cur height : ℕ) (out : LifecycleState)
    → prev.next_chain_id < 2 ^ 32
    → (advance_lifecycle prev n_prev n_cur height ≡ some out)
      ↔ (IsCoherent prev n_prev × InRange n_cur × LifecycleStep prev n_prev n_cur height out)
advance_lifecycle_iff prev n_prev n_cur height out w = (forth, back)
  where
    forth :
        advance_lifecycle prev n_prev n_cur height ≡ some out
        → IsCoherent prev n_prev × InRange n_cur × LifecycleStep prev n_prev n_cur height out
    forth s =
        let ad : Admitted prev n_prev n_cur height =
          advance-Admitted prev n_prev n_cur height out s in
        let c : IsCoherent prev n_prev = (lifecycle_state_coherent_iff prev n_prev).0 ad.coherent in
        let r : InRange n_cur = (is_count-InRange n_cur).0 ad.count_ok in
        (
          c,
          r,
          elim ad.near [
            | inl e ↦ held e (some_eq (advance_held prev n_prev n_cur height c r e) s)
            | inr (inl (e, a, ne)) ↦
                split e a (omega arith)
                  (some_eq (advance_splits prev n_prev n_cur height c r e a (omega arith)) s)
            | inr (inr (e, a)) ↦ merged_step prev n_prev n_cur height out c r e a s
          ],
        )

    back :
        IsCoherent prev n_prev × InRange n_cur × LifecycleStep prev n_prev n_cur height out
        → advance_lifecycle prev n_prev n_cur height ≡ some out
    back (c, r, held e o) = advance_held prev n_prev n_cur height c r e ∙ ap some (sym o)
    back (c, r, split e a lt o) =
        advance_splits prev n_prev n_cur height c r e a lt ∙ ap some (sym o)
    back (c, r, merged last e a l f o) =
        advance_merged prev n_prev n_cur height c r out.active_bindings last e a f l
        ∙ ap some (sym o)

-- From a coherent state, to a count in range that is at most one away, at a boundary and below the
-- last identity, the transition never fails.
pub advance_lifecycle_total :
    (prev : LifecycleState) (n_prev n_cur height : ℕ)
    → IsCoherent prev n_prev
    → InRange n_cur
    → (n_cur ≡ n_prev) ⊎ (n_cur ≡ n_prev + 1) ⊎ (n_prev ≡ n_cur + 1)
    → height % obs_window ≡ 0
    → prev.next_chain_id < u32_max
    → (out : LifecycleState) × (advance_lifecycle prev n_prev n_cur height ≡ some out)
advance_lifecycle_total prev n_prev n_cur height c r (inl e) a lt =
    (_, advance_held prev n_prev n_cur height c r e)
advance_lifecycle_total prev n_prev n_cur height c r (inr (inl e)) a lt =
    (_, advance_splits prev n_prev n_cur height c r e a lt)
advance_lifecycle_total prev n_prev n_cur height c r (inr (inr e)) a lt =
    let (front, last, f, len) = split_last n_cur prev.active_bindings (omega (arith, c.count)) in
    let (_, l) = (LanesFrom-snoc 0 front last).0 (rw f at c.lanes) in
    (_, advance_merged prev n_prev n_cur height c r front last e a f (omega arith))
