-- ===== src/Tracker/Invariant.antt =====
-- What every sequence of the tracker's operations keeps.
use litenyx.Common.{
  List, ℕ, ◌%◌, ◌<◌, ◌≡◌, refl, Bool, true, false, Option, none, some, [], ◌∷◌, length, length-set,
  arith, ltb, ◌==◌, if◌then◌else◌,
}
use litenyx.Common.Int.{ℤ}
use litenyx.Params.{min_chains}
use litenyx.Topology.{
  topo_max_chains, obs_window, hold, split, merge, topo_decide, topo_apply, transition_height,
}
use litenyx.Topology.Apply.{InRange, topo_apply-InRange}
use litenyx.Tracker.{
  add_sum, add_cnt, Tracker, Transitions, find, insert, erase, new_tracker, clear_window, reset,
  accumulate, transition, act, finalize, observations, connect, prev_chains, roll_back, disconnect,
  observe, tick,
}

-- The heights ascend from above `lo`, and each count is in range.
abbrev pub Ascends : ℕ → Transitions → Type 0
Ascends lo [] = Unit
Ascends lo ((k, v) ∷ m) = (lo < k) × InRange v × Ascends k m

abbrev pub Sorted : Transitions → Type 0
Sorted [] = Unit
Sorted ((k, v) ∷ m) = InRange v × Ascends k m

pub record IsValid (t : Tracker) : Type 0 where
  pub range : InRange t.n_chains
  pub sums : length t.sum_m ≡ topo_max_chains
  pub cnts : length t.cnt_m ≡ topo_max_chains
  pub sorted : Sorted t.transitions

-- The operations that the daemon and the test calls invoke.
pub data Step : Tracker → Tracker → Type 0 where
  reset_step : (t : Tracker) → Step t (reset t)
  connect_step : (t : Tracker) (c h : ℕ) (mc : ℤ) → Step t (connect t c h mc)
  disconnect_step : (t : Tracker) (c h : ℕ) (mc : ℤ) → Step t (disconnect t c h mc)
  observe_step : (t : Tracker) (c : ℕ) (mc : ℤ) → Step t (observe t c mc)
  tick_step : (t : Tracker) (h : ℕ) → Step t (tick t h)

pub data Reachable : Tracker → Type 0 where
  fresh : Reachable new_tracker
  after : {t u : Tracker} → Reachable t → Step t u → Reachable u

insert-Ascends :
    (lo : ℕ) (m : Transitions) (h v : ℕ)
    → Ascends lo m
    → lo < h
    → InRange v
    → Ascends lo (insert m h v)
unfolding insert
insert-Ascends lo [] h v a l r = (l, r, tt)
insert-Ascends lo ((k, w) ∷ m) h v a l r = grind (arith, insert-Ascends k m h v)

insert-Sorted : (m : Transitions) (h v : ℕ) → Sorted m → InRange v → Sorted (insert m h v)
unfolding insert
insert-Sorted [] h v s r = (r, tt)
insert-Sorted ((k, w) ∷ m) h v s r = grind (arith, insert-Ascends k m h v)

Ascends-lower : (lo k : ℕ) (m : Transitions) → lo < k → Ascends k m → Ascends lo m
Ascends-lower lo k [] l a = tt
Ascends-lower lo k ((h, v) ∷ m) l (p, r, a) = (omega arith, r, a)

Ascends-Sorted : (lo : ℕ) (m : Transitions) → Ascends lo m → Sorted m
Ascends-Sorted lo [] a = tt
Ascends-Sorted lo ((h, v) ∷ m) (p, r, a) = (r, a)

erase-Ascends : (lo : ℕ) (m : Transitions) (h : ℕ) → Ascends lo m → Ascends lo (erase m h)
unfolding erase
erase-Ascends lo [] h a = tt
erase-Ascends lo ((k, w) ∷ m) h (l, r, a) =
    let lower = Ascends-lower lo k m l a in let ih = erase-Ascends k m h a in ground arith

erase-Sorted : (m : Transitions) (h : ℕ) → Sorted m → Sorted (erase m h)
unfolding erase
erase-Sorted [] h s = tt
erase-Sorted ((k, w) ∷ m) h (r, a) =
    let sorted = Ascends-Sorted k m a in let ih = erase-Ascends k m h a in ground arith

prev_chains-InRange :
    (lo prev : ℕ) (m : Transitions) (h : ℕ)
    → InRange prev
    → Ascends lo m
    → InRange (prev_chains prev m h)
unfolding prev_chains
prev_chains-InRange lo prev [] h r a = r
prev_chains-InRange lo prev ((k, v) ∷ m) h r a =
    prev_chains-InRange k (if ltb k h then v else prev) m h (ground arith) a.2

prev_chains-Sorted : (m : Transitions) (h : ℕ) → Sorted m → InRange (prev_chains min_chains m h)
unfolding prev_chains
prev_chains-Sorted [] h s = omega arith
prev_chains-Sorted ((k, v) ∷ m) h (r, a) =
    prev_chains-InRange k (if ltb k h then v else min_chains) m h (ground arith) a

length-add_sum : (xs : List ℤ) (c : ℕ) (mc : ℤ) → length (add_sum xs c mc) ≡ length xs
unfolding add_sum
length-add_sum xs c mc = length-set xs c _

length-add_cnt : (xs : List ℕ) (c : ℕ) → length (add_cnt xs c) ≡ length xs
unfolding add_cnt
length-add_cnt xs c = length-set xs c _

pub accumulate-IsValid : (t : Tracker) (c : ℕ) (mc : ℤ) → IsValid t → IsValid (accumulate t c mc)
accumulate-IsValid t c mc v = record {
  range = unfold accumulate in ground arith;
  sums = unfold accumulate in ground (arith, v.sums, length-add_sum t.sum_m c mc);
  cnts = unfold accumulate in ground (arith, v.cnts, length-add_cnt t.cnt_m c);
  sorted = unfold accumulate in ground (arith, v.sorted);
}

transition-IsValid : (t : Tracker) (th n : ℕ) → IsValid t → InRange n → IsValid (transition t th n)
unfolding transition
transition-IsValid t th n v r = record {
  range = r;
  sums = v.sums;
  cnts = v.cnts;
  sorted = insert-Sorted t.transitions th n v.sorted r;
}

finalize-IsValid : (t : Tracker) (h : ℕ) → IsValid t → IsValid (finalize t h)
unfolding finalize
finalize-IsValid t h v =
    elim (topo_decide (observations t) t.n_chains h t.last_transition)
      as (λ d. IsValid (act t h d)) [
        | hold ↦ v
        | split ↦
            transition-IsValid t (transition_height h) (topo_apply t.n_chains split) v
              (topo_apply-InRange t.n_chains split v.range)
        | merge ↦
            transition-IsValid t (transition_height h) (topo_apply t.n_chains merge) v
              (topo_apply-InRange t.n_chains merge v.range)
      ]

clear_window-IsValid : (t : Tracker) → IsValid t → IsValid (clear_window t)
unfolding clear_window
clear_window-IsValid t v = record { range = v.range; sums = refl; cnts = refl; sorted = v.sorted }

either : (b : Bool) (t u : Tracker) → IsValid t → IsValid u → IsValid (if b then t else u)
either true t u v w = v
either false t u v w = w

roll_back-IsValid : (t : Tracker) (h : ℕ) → IsValid t → IsValid (roll_back t h)
unfolding roll_back
roll_back-IsValid t h v = record {
  range = prev_chains-Sorted t.transitions h v.sorted;
  sums = v.sums;
  cnts = v.cnts;
  sorted = erase-Sorted t.transitions h v.sorted;
}

disconnect-IsValid : (t : Tracker) (c h : ℕ) (mc : ℤ) → IsValid t → IsValid (disconnect t c h mc)
unfolding disconnect
disconnect-IsValid t c h mc v =
    elim (find t.transitions h)
      as (λ (o : Option ℕ). IsValid (elim o [ none ↦ t | some n ↦ roll_back t h ])) [
        | none ↦ v
        | some n ↦ roll_back-IsValid t h v
      ]

pub Step-IsValid : {t u : Tracker} → Step t u → IsValid t → IsValid u
Step-IsValid (reset_step t) v =
    unfold reset in record { range = omega arith; sums = refl; cnts = refl; sorted = tt }
Step-IsValid (connect_step t c h mc) v =
    let a = accumulate-IsValid t c mc v in
    unfold connect in
    either (h % obs_window == 0) (finalize (accumulate t c mc) h) (accumulate t c mc)
      (finalize-IsValid (accumulate t c mc) h a) a
Step-IsValid (disconnect_step t c h mc) v = disconnect-IsValid t c h mc v
Step-IsValid (observe_step t c mc) v = unfold observe in accumulate-IsValid t c mc v
Step-IsValid (tick_step t h) v =
    unfold tick in clear_window-IsValid (finalize t h) (finalize-IsValid t h v)

-- Whatever calls are made, at whatever heights, the chain count stays between 2 and 8, the two vectors
-- of the window keep eight entries, and the recorded heights ascend with counts between 2 and 8.
pub Reachable-IsValid : {t : Tracker} → Reachable t → IsValid t
Reachable-IsValid fresh = record { range = omega arith; sums = refl; cnts = refl; sorted = tt }
Reachable-IsValid (after r s) = Step-IsValid s (Reachable-IsValid r)
