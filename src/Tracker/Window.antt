-- ===== src/Tracker/Window.antt =====
-- What an observation leaves in the per-chain accumulators.
use litenyx.Common.{
  ℕ, zero, suc, ◌+◌, ◌<◌, ◌≡◌, refl, ap, ◌∙◌, Bool, true, false, List, [], ◌∷◌, arith, ltb, leb,
  ◌==◌, if◌then◌else◌, length, get_or, dec_lt, set,
}
use litenyx.Common.Int.{ℤ, pos, ◌+ℤ◌, i64}
use litenyx.Common.Words.{u32}
use litenyx.Topology.{topo_max_chains}
use litenyx.Tracker.{add_sum, add_cnt, Tracker, accumulate, zeros_m}
use litenyx.Tracker.Invariant.{IsValid}

module _ {ℓ} {A : Type ℓ} where
  get_or-set :
      (xs : List A) (i j : ℕ) (v d : A)
      → i < length xs
      → get_or (set xs i v) j d ≡ (if i == j then v else get_or xs j d)
  get_or-set [] i j v d h = absurd (omega arith)
  get_or-set (x ∷ xs) zero zero v d h = refl
  get_or-set (x ∷ xs) zero (suc j) v d h = ground arith
  get_or-set (x ∷ xs) (suc i) zero v d h = ground arith
  get_or-set (x ∷ xs) (suc i) (suc j) v d h = get_or-set xs i j v d (omega arith) ∙ ground arith

-- The count and the sum of a chain in the current window.
abbrev pub cnt_of : Tracker → ℕ → ℕ
cnt_of t j = get_or t.cnt_m j 0

abbrev pub sum_of : Tracker → ℕ → ℤ
sum_of t j = get_or t.sum_m j (pos 0)

pub cnt-accumulate :
    (t : Tracker) (c j : ℕ) (mc : ℤ)
    → IsValid t
    → j < topo_max_chains
    → cnt_of (accumulate t c mc) j ≡ (if c == j then u32 (cnt_of t j + 1) else cnt_of t j)
unfolding accumulate add_cnt
cnt-accumulate t c j mc v h =
    ground (arith, v.cnts, get_or-set t.cnt_m c j (u32 (get_or t.cnt_m c 0 + 1)) 0)

pick : (c j : ℕ) (f : ℕ → ℤ) (z : ℤ) → (if c == j then f c else z) ≡ (if c == j then f j else z)
pick c j f z = ground arith

sum_m-if :
    (b : Bool) (t u : Tracker) → (if b then t else u).sum_m ≡ (if b then t.sum_m else u.sum_m)
sum_m-if true t u = refl
sum_m-if false t u = refl

written :
    (t : Tracker) (c : ℕ) (mc : ℤ)
    → length t.sum_m ≡ topo_max_chains
    → (accumulate t c mc).sum_m
      ≡ (if leb topo_max_chains c then t.sum_m else set t.sum_m c (i64 (sum_of t c +ℤ mc)))
unfolding accumulate add_sum
written t c mc h =
    let sums = if ltb (length t.sum_m) topo_max_chains then zeros_m else t.sum_m in
    let e : sums ≡ t.sum_m = ground arith in
    sum_m-if (leb topo_max_chains c) t _
    ∙ ap
        (λ (s : List ℤ).
          if leb topo_max_chains c then t.sum_m else set s c (i64 (get_or s c (pos 0) +ℤ mc)))
        e

set_read :
    (b : Bool) (xs : List ℤ) (c j : ℕ) (w : ℤ)
    → (b ≡ false)
    → c < length xs
    → get_or (if b then xs else set xs c w) j (pos 0) ≡ (if c == j then w else get_or xs j (pos 0))
set_read true xs c j w e h = absurd (cc)
set_read false xs c j w e h = get_or-set xs c j w (pos 0) h

skip_read :
    (a b : Bool) (xs ys : List ℤ) (j : ℕ) (w : ℤ)
    → a ≡ true
    → b ≡ false
    → get_or (if a then xs else ys) j (pos 0) ≡ (if b then w else get_or xs j (pos 0))
skip_read true false xs ys j w p q = refl
skip_read false b xs ys j w p q = absurd (cc)
skip_read true true xs ys j w p q = absurd (cc)

pub sum-accumulate :
    (t : Tracker) (c j : ℕ) (mc : ℤ)
    → IsValid t
    → j < topo_max_chains
    → sum_of (accumulate t c mc) j ≡ (if c == j then i64 (sum_of t j +ℤ mc) else sum_of t j)
sum-accumulate t c j mc v h =
    ap (λ (s : List ℤ). get_or s j (pos 0)) (written t c mc v.sums)
    ∙ elim (dec_lt c topo_max_chains) [
      | yes l ↦
          set_read (leb topo_max_chains c) t.sum_m c j (i64 (sum_of t c +ℤ mc)) (ground arith)
            (omega (arith, v.sums))
          ∙ pick c j (λ (x : ℕ). i64 (sum_of t x +ℤ mc)) (sum_of t j)
      | no n ↦
          skip_read (leb topo_max_chains c) (c == j) t.sum_m
            (set t.sum_m c (i64 (sum_of t c +ℤ mc))) j (i64 (sum_of t j +ℤ mc)) (ground arith)
            (ground arith)
    ]
