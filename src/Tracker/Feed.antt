-- ===== src/Tracker/Feed.antt =====
-- litenyx/LITENYX_topology_tracker.cpp: what a window holds when every chain was observed once.
use litenyx.Common.{
  List, [], ◌∷◌, ℕ, zero, suc, ◌+◌, ◌*◌, ◌/◌, ◌≤◌, ◌<◌, ◌≡◌, refl, ap, ◌∙◌, Bool, true, false,
  arith, ltb, leb, ◌==◌, ◌&&◌, if◌then◌else◌, length, get_or, replicate,
}
use native.Mathlib.Nat.{le-div_iff_mul-le, mul-suc, mul-zero}
use litenyx.Common.Int.{ℤ, pos, ◌+ℤ◌, add_pos, i32, i64, i32_same}
use litenyx.Common.Words.{u32}
use litenyx.Topology.{topo_max_chains, ChainObservation, sum_m_c, aggregate_load}
use litenyx.Tracker.{Tracker, accumulate, observe_chain, observe_loop, observe, clamp_pressure}
use litenyx.Tracker.Invariant.{IsValid, Step-IsValid, observe_step}
use litenyx.Tracker.Window.{cnt_of, sum_of, cnt-accumulate, sum-accumulate}

-- The `left` chains from `c` on, each observed once at its pressure.
pub feed : Tracker → (ℕ → ℕ) → ℕ → ℕ → Tracker
feed t p c zero = t
feed t p c (suc left) = feed (observe t c (pos (p c))) p (c + 1) left

unfoldable pub within : ℕ → ℕ → ℕ → Bool
within c left j = leb c j && ltb j (c + left)

pub feed-IsValid : (t : Tracker) (p : ℕ → ℕ) (c left : ℕ) → IsValid t → IsValid (feed t p c left)
unfolding feed
feed-IsValid t p c zero v = v
feed-IsValid t p c (suc left) v =
    feed-IsValid (observe t c (pos (p c))) p (c + 1) left
      (Step-IsValid (observe_step t c (pos (p c))) v)

kept_if :
    (b : Bool) (t u : Tracker)
    → u.n_chains ≡ t.n_chains
    → u.last_transition ≡ t.last_transition
    → ((if b then t else u).n_chains ≡ t.n_chains)
      × ((if b then t else u).last_transition ≡ t.last_transition)
kept_if true t u p q = (refl, refl)
kept_if false t u p q = (p, q)

observe_kept :
    (t : Tracker) (c : ℕ) (mc : ℤ)
    → ((observe t c mc).n_chains ≡ t.n_chains)
      × ((observe t c mc).last_transition ≡ t.last_transition)
unfolding observe accumulate
observe_kept t c mc = kept_if (leb topo_max_chains c) t _ refl refl

pub feed_kept :
    (t : Tracker) (p : ℕ → ℕ) (c left : ℕ)
    → ((feed t p c left).n_chains ≡ t.n_chains)
      × ((feed t p c left).last_transition ≡ t.last_transition)
unfolding feed
feed_kept t p c zero = (refl, refl)
feed_kept t p c (suc left) =
    let (a, b) = feed_kept (observe t c (pos (p c))) p (c + 1) left in
    let (x, y) = observe_kept t c (pos (p c)) in (a ∙ x, b ∙ y)

module _ {ℓ} {A : Type ℓ} (f : A → A) where
  within_none : (c j : ℕ) (x : A) → x ≡ (if within c 0 j then f x else x)
  unfolding within
  within_none c j x = ground arith

  within_step :
      (c left j : ℕ) (x y z : A)
      → z ≡ (if within (c + 1) left j then f y else y)
      → y ≡ (if c == j then f x else x)
      → z ≡ (if within c (suc left) j then f x else x)
  unfolding within
  within_step c left j x y z p q = ground arith

same_pressure :
    (p : ℕ → ℕ) (c j : ℕ) (x : ℤ)
    → (if c == j then i64 (x +ℤ pos (p c)) else x) ≡ (if c == j then i64 (x +ℤ pos (p j)) else x)
same_pressure p c j x = ground arith

pub feed_window :
    (t : Tracker) (p : ℕ → ℕ) (c left j : ℕ)
    → IsValid t
    → j < topo_max_chains
    → (cnt_of (feed t p c left) j ≡ (if within c left j then u32 (cnt_of t j + 1) else cnt_of t j))
      × (sum_of (feed t p c left) j
          ≡ (if within c left j then i64 (sum_of t j +ℤ pos (p j)) else sum_of t j))
unfolding feed
feed_window t p c zero j v h = (
  within_none (λ (x : ℕ). u32 (x + 1)) c j (cnt_of t j),
  within_none (λ (x : ℤ). i64 (x +ℤ pos (p j))) c j (sum_of t j),
)
feed_window t p c (suc left) j v h =
    let u = observe t c (pos (p c)) in
    let (n, s) = feed_window u p (c + 1) left j (Step-IsValid (observe_step t c (pos (p c))) v) h in
    let en : cnt_of u j ≡ (if c == j then u32 (cnt_of t j + 1) else cnt_of t j) =
      unfold observe in cnt-accumulate t c j (pos (p c)) v h in
    let es : sum_of u j ≡ (if c == j then i64 (sum_of t j +ℤ pos (p j)) else sum_of t j) =
      unfold observe in sum-accumulate t c j (pos (p c)) v h ∙ same_pressure p c j (sum_of t j) in
    (
      within_step (λ (x : ℕ). u32 (x + 1)) c left j (cnt_of t j) (cnt_of u j)
          (cnt_of (feed u p (c + 1) left) j) n en,
      within_step (λ (x : ℤ). i64 (x +ℤ pos (p j))) c left j (sum_of t j) (sum_of u j)
          (sum_of (feed u p (c + 1) left) j) s es,
    )

-- What the chains from `c` on are observed at.
pub pressures : (ℕ → ℕ) → ℕ → ℕ → List ChainObservation
pressures p c zero = []
pressures p c (suc left) = record { m_c = pos (p c) } ∷ pressures p (c + 1) left

length-pressures : (p : ℕ → ℕ) (c left : ℕ) → length (pressures p c left) ≡ left
unfolding pressures
length-pressures p c zero = refl
length-pressures p c (suc left) = ap suc (length-pressures p (c + 1) left)

sum-pressures :
    (p : ℕ → ℕ) (c left low : ℕ)
    → ((j : ℕ) → low ≤ p j)
    → (s : ℕ) × (sum_m_c (pressures p c left) ≡ pos s) × (low * left ≤ s)
unfolding sum_m_c pressures
sum-pressures p c zero low h = (0, refl, omega (arith, mul-zero low))
sum-pressures p c (suc left) low h =
    let (s, e, l) = sum-pressures p (c + 1) left low h in
    let k = h c in
    let m : low * suc left ≡ low * left + low = mul-suc low left in
    (p c + s, rw e (add_pos (p c) s), omega arith)

pub load-pressures :
    (p : ℕ → ℕ) (n low : ℕ)
    → 0 < n
    → ((j : ℕ) → low ≤ p j)
    → (q : ℕ) × (aggregate_load (pressures p 0 n) ≡ pos q) × (low ≤ q)
unfolding aggregate_load
load-pressures p zero low h k = absurd (omega arith)
load-pressures p (suc n) low h k =
    let (s, e, l) = sum-pressures p 0 (suc n) low k in
    let len : length (pressures p 0 (suc n)) ≡ suc n = length-pressures p 0 (suc n) in
    (s / suc n, unfold pressures in rw (e, len) refl, (le-div_iff_mul-le h).1 l)

pub observe_loop-pressures :
    (t : Tracker) (p : ℕ → ℕ) (c left : ℕ)
    → ((j : ℕ) → c ≤ j → j < c + left → observe_chain t j ≡ record { m_c = pos (p j) })
    → observe_loop t c left ≡ pressures p c left
unfolding observe_loop pressures
observe_loop-pressures t p c zero h = refl
observe_loop-pressures t p c (suc left) h =
    rw
      (
        h c (omega arith) (omega arith),
        observe_loop-pressures t p (c + 1) left (λ j x y. h j (omega arith) (omega arith)),
      )
      refl

one_window :
    (m : ℕ)
    → m ≤ 100
    → ◌≡◌ {A = ChainObservation}
        (record { m_c = clamp_pressure (i32 (pos (m / 1))) })
        (record { m_c = pos m })
one_window m h =
    let e : m / 1 ≡ m = omega arith in
    let w : i32 (pos m) ≡ pos m = i32_same m (omega arith) in rw (e, w) (ground arith)

pub observe_one :
    (t : Tracker) (j m : ℕ)
    → m ≤ 100
    → cnt_of t j ≡ 1
    → sum_of t j ≡ pos m
    → observe_chain t j ≡ record { m_c = pos m }
unfolding observe_chain
observe_one t j m h n s = rw (n, s) (one_window m h)

pub get_or-replicate {ℓ} : {A : Type ℓ} (n j : ℕ) (a : A) → get_or (replicate n a) j a ≡ a
get_or-replicate zero j a = refl
get_or-replicate (suc n) zero a = refl
get_or-replicate (suc n) (suc j) a = get_or-replicate n j a
