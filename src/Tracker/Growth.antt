-- ===== src/Tracker/Growth.antt =====
-- The controller under high demand: windows filled by `Observe` and ended by `Tick`.
use litenyx.Common.{
  ℕ, zero, suc, ◌+◌, ◌*◌, ◌^◌, ◌≤◌, ◌<◌, ◌≡◌, ◌≢◌, refl, sym, ap, ◌∙◌, min, Bool, true, List, arith,
  if◌then◌else◌, get_or, dec_lt,
}
use litenyx.Common.Int.{ℤ, pos, ◌+ℤ◌, add_pos, i64, i64_same, ◌≤ℤ◌, pos_part, neg_part}
use litenyx.Common.Words.{u8, u32}
use litenyx.Topology.{
  topo_max_chains, hyst_high, hyst_low, TopoDecision, hold, split, merge, aggregate_load,
  topo_decide, topo_apply,
}
use litenyx.Topology.Apply.{InRange, transition_height_bounds}
use litenyx.Topology.Decision.{CooldownOver, topo_decide_cases}
use litenyx.Tracker.{
  Tracker, act, transition, observe_chain, observe_loop, finalize, observations, clear_window, tick,
  zeros_m, zeros_cnt,
}
use litenyx.Tracker.Invariant.{IsValid, Step-IsValid, tick_step}
use litenyx.Tracker.Window.{cnt_of, sum_of}
use litenyx.Tracker.Feed.{
  feed, within, feed_kept, feed_window, load-pressures, observe_loop-pressures, pressures,
  observe_one, get_or-replicate, feed-IsValid,
}

-- One window in which every active chain reports its pressure, ended at the height.
unfoldable pub round : Tracker → (ℕ → ℕ) → ℕ → Tracker
round t p h = tick (feed t p 0 t.n_chains) h

-- Windows that end 500 blocks apart, each with its own pressures.
pub rounds : Tracker → (ℕ → ℕ → ℕ) → ℕ → ℕ → Tracker
rounds t w h zero = t
rounds t w h (suc k) = rounds (round t (w 0) h) (λ i. w (suc i)) (h + 500) k

-- A tracker at the start of a window, with no cooldown left at the height.
pub record IsReady (t : Tracker) (h : ℕ) : Type 0 where
  pub valid : IsValid t
  pub no_sums : t.sum_m ≡ zeros_m
  pub no_cnts : t.cnt_m ≡ zeros_cnt
  pub over : CooldownOver h t.last_transition

-- Every pressure is above the upper threshold and at most 100.
abbrev pub AllBusy : (ℕ → ℕ) → Type 0
AllBusy p = (j : ℕ) → (hyst_high < p j) × (p j ≤ 100)

module _ (t : Tracker) (h : ℕ) (p : ℕ → ℕ) (r : IsReady t h) (b : AllBusy p) where
  fed_chain :
      (j : ℕ)
      → j < t.n_chains
      → observe_chain (feed t p 0 t.n_chains) j ≡ record { m_c = pos (p j) }
  fed_chain j l =
      let (n, s) = feed_window t p 0 t.n_chains j r.valid (omega (arith, r.valid.range)) in
      let w : within 0 t.n_chains j ≡ true = unfold within in ground arith in
      let (_, top) = b j in
      let c0 : cnt_of t j ≡ 0 =
        ap (λ (x : List ℕ). get_or x j 0) r.no_cnts ∙ get_or-replicate topo_max_chains j 0 in
      let s0 : sum_of t j ≡ pos 0 =
        ap (λ (x : List ℤ). get_or x j (pos 0)) r.no_sums
        ∙ get_or-replicate topo_max_chains j (pos 0) in
      let zero_add : pos (0 + p j) ≡ pos (p j) = ap pos (omega arith) in
      observe_one (feed t p 0 t.n_chains) j (p j) top
        (n
          ∙ (ap (λ (b : Bool). if b then u32 (cnt_of t j + 1) else cnt_of t j) w
              ∙ ap (λ (x : ℕ). u32 (x + 1)) c0))
        (s
          ∙ (ap (λ (b : Bool). if b then i64 (sum_of t j +ℤ pos (p j)) else sum_of t j) w
              ∙ (ap (λ (x : ℤ). i64 (x +ℤ pos (p j))) s0
                  ∙ (ap i64 (add_pos 0 (p j) ∙ zero_add)
                      ∙ i64_same (pos (p j)) (omega arith, omega arith)))))

  fed-observations : observations (feed t p 0 t.n_chains) ≡ pressures p 0 t.n_chains
  unfolding observations
  fed-observations =
      let u = feed t p 0 t.n_chains in
      let (k, _) = feed_kept t p 0 t.n_chains in
      ap (λ (n : ℕ). observe_loop u 0 n) k
      ∙ observe_loop-pressures u p 0 t.n_chains (λ j _ l. fed_chain j (omega arith))

  fed_load :
      (q : ℕ) × (aggregate_load (observations (feed t p 0 t.n_chains)) ≡ pos q) × (hyst_high < q)
  fed_load =
      let (q, e, l) =
        load-pressures p t.n_chains (suc hyst_high) (omega (arith, r.valid.range)) (λ j. (b j).0) in
      (q, ap aggregate_load fed-observations ∙ e, omega arith)

only_hold : (d : TopoDecision) → d ≢ split → d ≢ merge → d ≡ hold
only_hold hold a b = refl
only_hold split a b = absurd (a refl)
only_hold merge a b = absurd (b refl)

high_load :
    (a : ℤ) (m : ℕ) → a ≡ pos m → hyst_high < m → ¬ (suc (pos_part a) ≤ hyst_low + neg_part a)
high_load a m e b h = ground arith

split_busy :
    (t : Tracker) (h : ℕ)
    → InRange t.n_chains
    → t.n_chains < topo_max_chains
    → h + 300 ≤ 2 ^ 32
    → ((act t h split).n_chains ≡ min topo_max_chains (t.n_chains + 1))
      × CooldownOver (h + 500) (act t h split).last_transition
unfolding topo_apply transition
split_busy t h r l w =
    let (_, _, x) = transition_height_bounds h w in
    let n : u8 (t.n_chains + 1) ≡ t.n_chains + 1 = omega arith in ground arith

-- What one observation at load `m` decides, and what it leaves.
finalize_busy :
    (t : Tracker) (h m : ℕ)
    → InRange t.n_chains
    → aggregate_load (observations t) ≡ pos m
    → hyst_high < m
    → CooldownOver h t.last_transition
    → h + 300 ≤ 2 ^ 32
    → ((finalize t h).n_chains ≡ min topo_max_chains (t.n_chains + 1))
      × CooldownOver (h + 500) (finalize t h).last_transition
finalize_busy t h m r e b o w =
    let d = topo_decide (observations t) t.n_chains h t.last_transition in
    let ((s, f), (g, _)) = topo_decide_cases (observations t) t.n_chains h t.last_transition in
    elim (dec_lt t.n_chains topo_max_chains) [
      | yes l ↦
          let high : pos (suc hyst_high) ≤ℤ aggregate_load (observations t) = rw e (omega arith) in
          let q : finalize t h ≡ act t h split =
            unfold finalize in ap (λ (x : TopoDecision). act t h x) (f (o, high, l)) in
          rw q (split_busy t h r l w)
      | no l ↦
          let no_merge : merge ≢ d =
            λ p. high_load (aggregate_load (observations t)) m e b ((g (sym p)).1) in
          let q : finalize t h ≡ act t h hold =
            unfold finalize in
            ap (λ (x : TopoDecision). act t h x)
              (only_hold d (λ p. l ((s p).2)) (λ p. no_merge (sym p))) in
          rw q (ground arith)
    ]

round_busy :
    (t : Tracker) (h : ℕ) (p : ℕ → ℕ)
    → IsReady t h
    → AllBusy p
    → h + 300 ≤ 2 ^ 32
    → ((round t p h).n_chains ≡ min topo_max_chains (t.n_chains + 1))
      × IsReady (round t p h) (h + 500)
unfolding round
round_busy t h p r b w =
    let u = feed t p 0 t.n_chains in
    let (k, l) = feed_kept t p 0 t.n_chains in
    let vu = feed-IsValid t p 0 t.n_chains r.valid in
    let (q, load, high) = fed_load t h p r b in
    let o : CooldownOver h u.last_transition = rw l r.over in
    let (n, c) = finalize_busy u h q vu.range load high o w in
    (
      unfold tick clear_window in n ∙ ap (λ (x : ℕ). min topo_max_chains (x + 1)) k,
      record {
        valid = Step-IsValid (tick_step u h) vu;
        no_sums = unfold tick clear_window in refl;
        no_cnts = unfold tick clear_window in refl;
        over = unfold tick clear_window in c;
      },
    )

-- From a tracker that stands at the start of a window with its cooldown over, `k` windows that end 500
-- blocks apart, in each of which every active chain reports once a pressure of its own, above 80 and at
-- most 100, bring `k` more chains, up to 8.
pub rounds-grow :
    (t : Tracker) (h k : ℕ) (ps : ℕ → ℕ → ℕ)
    → IsReady t h
    → ((i : ℕ) → AllBusy (ps i))
    → h + 500 * k + 300 ≤ 2 ^ 32
    → (rounds t ps h k).n_chains ≡ min topo_max_chains (t.n_chains + k)
unfolding rounds
rounds-grow t h zero ps r b w = omega (arith, r.valid.range)
rounds-grow t h (suc k) ps r b w =
    let (n, next) = round_busy t h (ps 0) r (b 0) (omega arith) in
    let ih =
      rounds-grow (round t (ps 0) h) (h + 500) k (λ i. ps (suc i)) next (λ i. b (suc i))
        (omega arith) in
    omega (arith, ih, n)
