-- ===== src/Tracker/Rollback.antt =====
-- What `Disconnect` undoes of a move of the controller.
use litenyx.Common.{
  ℕ, ◌+◌, ◌^◌, ◌≤◌, ◌<◌, ◌≡◌, ◌≢◌, refl, ap, ◌∙◌, none, some, List, [], ◌∷◌, ◌++◌, arith, ltb,
  if◌then◌else◌, ◌&&◌,
}
use litenyx.Common.Int.{ℤ}
use litenyx.Params.{min_chains}
use litenyx.Topology.{
  TopoDecision, hold, split, merge, topo_decide, topo_apply, transition_height, in_cooldown,
  ChainObservation,
}
use litenyx.Topology.Apply.{transition_height_bounds}
use litenyx.Topology.Decision.{CooldownOver}
use litenyx.Tracker.{
  Tracker, Transitions, find, insert, erase, act, transition, finalize, observations, prev_chains,
  prev_height, roll_back, disconnect,
}
use litenyx.Tracker.Invariant.{Ascends}

-- The greatest height and its count, of a map in order.
abbrev pub newest_height : ℕ → Transitions → ℕ
newest_height lo [] = lo
newest_height lo ((k, v) ∷ m) = newest_height k m

abbrev pub newest_chains : ℕ → Transitions → ℕ
newest_chains n [] = n
newest_chains n ((k, v) ∷ m) = newest_chains v m

-- The tracker's count and height are those of the newest transition.
pub record IsSynced (t : Tracker) : Type 0 where
  pub ascends : Ascends 0 t.transitions
  pub chains : t.n_chains ≡ newest_chains min_chains t.transitions
  pub height : t.last_transition ≡ newest_height 0 t.transitions

newest_le : (lo : ℕ) (m : Transitions) → Ascends lo m → lo ≤ newest_height lo m
newest_le lo [] a = omega arith
newest_le lo ((k, w) ∷ m) (p, r, a) = omega (arith, newest_le k m a)

module _ (h v : ℕ) where
  insert_newest :
      (lo : ℕ) (m : Transitions)
      → Ascends lo m
      → newest_height lo m < h
      → insert m h v ≡ m ++ ((h, v) ∷ [])
  unfolding insert
  insert_newest lo [] a l = refl
  insert_newest lo ((k, w) ∷ m) (p, r, a) l =
      let q = newest_le k m a in ground (arith, insert_newest k m a l)

  find_newest :
      (lo : ℕ) (m : Transitions)
      → Ascends lo m
      → newest_height lo m < h
      → find (m ++ ((h, v) ∷ [])) h ≡ some v
  unfolding find
  find_newest lo [] a l = ground arith
  find_newest lo ((k, w) ∷ m) (p, r, a) l = ground (arith, find_newest k m a l, newest_le k m a)

  erase_newest :
      (lo : ℕ) (m : Transitions)
      → Ascends lo m
      → newest_height lo m < h
      → erase (m ++ ((h, v) ∷ [])) h ≡ m
  unfolding erase
  erase_newest lo [] a l = ground arith
  erase_newest lo ((k, w) ∷ m) (p, r, a) l = ground (arith, erase_newest k m a l, newest_le k m a)

  prev_chains_newest :
      (lo n : ℕ) (m : Transitions)
      → Ascends lo m
      → newest_height lo m < h
      → prev_chains n (m ++ ((h, v) ∷ [])) h ≡ newest_chains n m
  unfolding prev_chains
  prev_chains_newest lo n [] a l = ground arith
  prev_chains_newest lo n ((k, w) ∷ m) (p, r, a) l =
      let q = newest_le k m a in
      let e : (if ltb k h then w else n) ≡ w = ground arith in
      ap (λ (x : ℕ). prev_chains x (m ++ ((h, v) ∷ [])) h) e ∙ prev_chains_newest k w m a l

  prev_height_newest :
      (lo : ℕ) (m : Transitions)
      → Ascends lo m
      → newest_height lo m < h
      → prev_height lo (m ++ ((h, v) ∷ [])) h ≡ newest_height lo m
  unfolding prev_height
  prev_height_newest lo [] a l = ground arith
  prev_height_newest lo ((k, w) ∷ m) (p, r, a) l =
      let q = newest_le k m a in
      let e : (if ltb k h && ltb lo k then k else lo) ≡ k = ground arith in
      ap (λ (x : ℕ). prev_height x (m ++ ((h, v) ∷ [])) h) e ∙ prev_height_newest k m a l

  find_other :
      (lo g : ℕ) (m : Transitions)
      → Ascends lo m
      → newest_height lo m < g
      → g ≢ h
      → find (m ++ ((h, v) ∷ [])) g ≡ none
  unfolding find
  find_other lo g [] a l d = ground arith
  find_other lo g ((k, w) ∷ m) (p, r, a) l d =
      ground (arith, find_other k g m a l d, newest_le k m a)

-- A decision to move, at an observation after the newest transition.
decide-CooldownOver :
    (obs : List ChainObservation) (n h last : ℕ)
    → topo_decide obs n h last ≢ hold
    → CooldownOver h last
unfolding topo_decide in_cooldown
decide-CooldownOver obs n h last m = ground arith

act-transition :
    (t : Tracker) (h : ℕ) (d : TopoDecision)
    → d ≢ hold
    → act t h d ≡ transition t (transition_height h) (topo_apply t.n_chains d)
act-transition t h hold m = absurd (m refl)
act-transition t h split m = refl
act-transition t h merge m = refl

disconnect_found :
    (t : Tracker) (c h v : ℕ) (mc : ℤ)
    → find t.transitions h ≡ some v
    → disconnect t c h mc ≡ roll_back t h
unfolding disconnect
disconnect_found t c h v mc e = ground (arith, e)

disconnect_missing :
    (t : Tracker) (c h : ℕ) (mc : ℤ) → find t.transitions h ≡ none → disconnect t c h mc ≡ t
unfolding disconnect
disconnect_missing t c h mc e = ground (arith, e)

module _ (t : Tracker) (th n : ℕ) (s : IsSynced t) (l : t.last_transition < th) where
  below : newest_height 0 t.transitions < th
  below = omega (arith, s.height)

  restored : roll_back (transition t th n) th ≡ t
  unfolding roll_back transition
  restored =
      let e = insert_newest th n 0 t.transitions s.ascends below in
      let p : prev_chains min_chains (insert t.transitions th n) th ≡ t.n_chains =
        rw (e, s.chains) (prev_chains_newest th n 0 min_chains t.transitions s.ascends below) in
      let q : prev_height 0 (insert t.transitions th n) th ≡ t.last_transition =
        rw (e, s.height) (prev_height_newest th n 0 t.transitions s.ascends below) in
      let r : erase (insert t.transitions th n) th ≡ t.transitions =
        rw e (erase_newest th n 0 t.transitions s.ascends below) in
      λ i. record {
        n_chains = p i;
        last_transition = q i;
        transitions = r i;
        sum_m = t.sum_m;
        cnt_m = t.cnt_m;
      }

  undone : (c : ℕ) (mc : ℤ) → disconnect (transition t th n) c th mc ≡ t
  undone c mc =
      let e = insert_newest th n 0 t.transitions s.ascends below in
      let f : find (insert t.transitions th n) th ≡ some n =
        rw e (find_newest th n 0 t.transitions s.ascends below) in
      disconnect_found (transition t th n) c th n mc (unfold transition in f) ∙ restored

  kept :
      (c g : ℕ) (mc : ℤ)
      → t.last_transition < g
      → g ≢ th
      → disconnect (transition t th n) c g mc ≡ transition t th n
  kept c g mc lg d =
      let e = insert_newest th n 0 t.transitions s.ascends below in
      let b : newest_height 0 t.transitions < g = omega (arith, s.height) in
      let f : find (insert t.transitions th n) g ≡ none =
        rw e (find_other th n 0 g t.transitions s.ascends b d) in
      disconnect_missing (transition t th n) c g mc (unfold transition in f)

-- From a tracker whose count and height are those of its newest transition, an observation that moves
-- the count is undone exactly by the disconnection of the block at the transition height, and the
-- disconnection of any other block above the last transition, also of the observed one, undoes nothing.
pub disconnect-finalize :
    (t : Tracker) (h : ℕ)
    → IsSynced t
    → h + 300 ≤ 2 ^ 32
    → topo_decide (observations t) t.n_chains h t.last_transition ≢ hold
    → (c g : ℕ) (mc : ℤ) → t.last_transition < g
    → ((g ≡ transition_height h) → disconnect (finalize t h) c g mc ≡ t)
      × ((g ≢ transition_height h) → disconnect (finalize t h) c g mc ≡ finalize t h)
disconnect-finalize t h s b m c g mc lg =
    let d = topo_decide (observations t) t.n_chains h t.last_transition in
    let e : finalize t h ≡ transition t (transition_height h) (topo_apply t.n_chains d) =
      unfold finalize in act-transition t h d m in
    let o = decide-CooldownOver (observations t) t.n_chains h t.last_transition m in
    let th = transition_height h in
    let (_, lo, _) = transition_height_bounds h b in
    let l : t.last_transition < th = ground arith in
    (
      λ q. rw (e, q) (undone t th (topo_apply t.n_chains d) s l c mc),
      λ q. rw e (kept t th (topo_apply t.n_chains d) s l c g mc lg q),
    )
