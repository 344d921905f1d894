-- ===== src/Dag/Order.antt =====
-- What a search without a cycle leaves: the tasks in an order in which dependencies come before.
use mathlib.Core.Path.{subst}
use litenyx.Common.{ℕ, zero, suc, ◌≡◌, ◌⊎◌, inl, inr, sym, false, List, [], ◌∷◌, arith}
use litenyx.Dag.Search.{
  mem, erase, Adjacency, adj, Visit, cycle_found, clear, out_of_fuel, and_then, neighbors,
  dfs_visit, roots, search_fuel, search,
}
use litenyx.Dag.Reach.{In, Reach, edge, step, Sound, dfs-Sound, by_test, In-cons}

-- The dependencies of each task stand behind it.
abbrev pub Ordered : Adjacency → List ℕ → Type 0
Ordered g [] = Unit
Ordered g (n ∷ l) = ((m : ℕ) → In m (adj g n) → In m l) × Ordered g l

In-suc : (x n : ℕ) (l : List ℕ) → In x l → In x (n ∷ l)
In-suc x n l h = ground arith

only : (n m : ℕ) → In m (n ∷ []) → m ≡ n
only n m i = ground arith

In-head : (n : ℕ) (l : List ℕ) → In n (n ∷ l)
In-head n l = ground arith

adj-Ordered :
    (g : Adjacency) (l : List ℕ) (x m : ℕ) → Ordered g l → In x l → In m (adj g x) → In m l
adj-Ordered g [] x m o i e = absurd (cc)
adj-Ordered g (n ∷ l) x m (f, o) i e = In-suc m n l (elim (In-cons x n l i) [
  | inl p ↦ f m (subst (λ (y : ℕ). In m (adj g y)) p e)
  | inr j ↦ adj-Ordered g l x m o j e
])

Reach-Ordered : (g : Adjacency) (l : List ℕ) {x y : ℕ} → Ordered g l → Reach g x y → In x l → In y l
Reach-Ordered g l {x} o (edge {y = y} e) i = adj-Ordered g l x y o i e
Reach-Ordered g l {x} o (step {y = y} e r) i = Reach-Ordered g l o r (adj-Ordered g l x y o i e)

behind :
    (g : Adjacency) (n : ℕ) (l : List ℕ) {x y : ℕ}
    → Ordered g (n ∷ l)
    → x ≡ n
    → Reach g x y
    → In y l
behind g n l (f, o) p (edge {y = y} e) = f y (subst (λ (z : ℕ). In y (adj g z)) p e)
behind g n l (f, o) p (step {y = y} e r) =
    Reach-Ordered g l o r (f y (subst (λ (z : ℕ). In y (adj g z)) p e))

-- No task of such an order depends on itself.
pub Ordered-acyclic : (g : Adjacency) (l : List ℕ) (x : ℕ) → Ordered g l → In x l → Reach g x x → ⊥
Ordered-acyclic g [] x o i r = absurd (cc)
Ordered-acyclic g (n ∷ l) x o i r =
    Ordered-acyclic g l x o.1 (elim (In-cons x n l i) [ inl p ↦ behind g n l o p r | inr j ↦ j ]) r

-- Every visited task is finished or on the stack.
abbrev Covers : List ℕ → List ℕ → List ℕ → Type 0
Covers fin v t = (x : ℕ) → In x v → In x fin ⊎ In x t

-- More is finished after a search than before, and all that was wanted.
abbrev After : Adjacency → List ℕ → List ℕ → Visit → Type 0
After g fin want cycle_found = Unit {0}
After g fin want (clear v t) =
    (more : List ℕ) × Ordered g more
    × ((x : ℕ) → In x fin → In x more)
    × Covers more v t
    × ((m : ℕ) → In m want → In m more)
After g fin want out_of_fuel = Unit {0}

After-widen :
    (g : Adjacency) (fin more rest : List ℕ) (n : ℕ) (r : Visit)
    → ((x : ℕ) → In x fin → In x more)
    → In n more
    → After g more rest r
    → After g fin (n ∷ rest) r
After-widen g fin more rest n cycle_found u i a = tt
After-widen g fin more rest n out_of_fuel u i a = tt
After-widen g fin more rest n (clear v t) u i (m, o, w, c, d) = (
  m,
  o,
  λ x j. w x (u x j),
  c,
  λ x j. elim (In-cons x n rest j) [
    | inl p ↦ subst (λ (y : ℕ). In y m) (sym p) (w n i)
    | inr k ↦ d x k
  ],
)

After-bind :
    (g : Adjacency) (fin rest : List ℕ) (r : Visit) (k : List ℕ → List ℕ → Visit) (n : ℕ)
    → After g fin (n ∷ []) r
    → ((more v t : List ℕ) → Ordered g more → Covers more v t → After g more rest (k v t))
    → After g fin (n ∷ rest) (and_then r k)
After-bind g fin rest cycle_found k n p h = tt
After-bind g fin rest out_of_fuel k n p h = tt
After-bind g fin rest (clear v t) k n (more, o, u, c, w) h =
    After-widen g fin more rest n (k v t) u (w n (In-head n [])) (h more v t o c)

finished : (n : ℕ) (fin t : List ℕ) → In n fin ⊎ In n t → mem n t ≡ false → In n fin
finished n fin t (inl i) e = i
finished n fin t (inr i) e = absurd (cc)

push-Covers : (n x : ℕ) (fin v t : List ℕ) → Covers fin v t → In x (n ∷ v) → In x fin ⊎ In x (n ∷ t)
push-Covers n x fin v t c i = elim (In-cons x n v i) [
  | inl p ↦ inr (subst (λ (y : ℕ). In y (n ∷ t)) (sym p) (In-head n t))
  | inr j ↦ elim (c x j) [ inl k ↦ inl k | inr k ↦ inr (In-suc x n t k) ]
]

In-erase_other : (n x : ℕ) (t : List ℕ) → In x t → (x ≡ n) ⊎ In x (erase n t)
In-erase_other n x [] i = absurd (cc)
In-erase_other n x (y ∷ t) i = ground (arith, In-erase_other n x t)

pop-Covers : (n x : ℕ) (fin t : List ℕ) → In x fin ⊎ In x t → In x (n ∷ fin) ⊎ In x (erase n t)
pop-Covers n x fin t (inl i) = inl (In-suc x n fin i)
pop-Covers n x fin t (inr i) = elim (In-erase_other n x t i) [
  | inl p ↦ inl (subst (λ (y : ℕ). In y (n ∷ fin)) (sym p) (In-head n fin))
  | inr j ↦ inr j
]

pop-After :
    (g : Adjacency) (n : ℕ) (fin : List ℕ) (r : Visit)
    → After g fin (adj g n) r
    → After g fin (n ∷ []) (and_then r (λ v t. clear v (erase n t)))
pop-After g n fin cycle_found a = tt
pop-After g n fin out_of_fuel a = tt
pop-After g n fin (clear v t) (more, o, u, c, w) = (
  n ∷ more,
  (w, o),
  λ x i. In-suc x n more (u x i),
  λ x i. pop-Covers n x more t (c x i),
  λ m i. subst (λ (y : ℕ). In y (n ∷ more)) (sym (only n m i)) (In-head n more),
)

not_open : (n : ℕ) (fin t : List ℕ) → ((x : ℕ) → In x t → ⊥) → In n fin ⊎ In n t → In n fin
not_open n fin t e (inl i) = i
not_open n fin t e (inr i) = absurd (e n i)

root-bind :
    (g : Adjacency) (fin rest t : List ℕ) (r : Visit) (k : List ℕ → List ℕ → Visit) (n : ℕ)
    → ((x : ℕ) → In x t → ⊥)
    → Sound g t r
    → After g fin (n ∷ []) r
    → ((more v t1 : List ℕ)
        → Ordered g more
        → Covers more v t1
        → ((x : ℕ) → In x t1 → ⊥)
        → After g more rest (k v t1))
    → After g fin (n ∷ rest) (and_then r k)
root-bind g fin rest t cycle_found k n e s p h = tt
root-bind g fin rest t out_of_fuel k n e s p h = tt
root-bind g fin rest t (clear v t1) k n e s (more, o, u, c, w) h =
    After-widen g fin more rest n (k v t1) u (w n (In-head n []))
      (h more v t1 o c (λ x i. e x (s x i)))

module _ (g : Adjacency) where
  neighbors-After :
      (visit : ℕ → List ℕ → List ℕ → Visit)
      → ((n : ℕ) (v t fin : List ℕ)
          → Ordered g fin
          → Covers fin v t
          → After g fin (n ∷ []) (visit n v t))
      → (ns v t fin : List ℕ) → Ordered g fin
      → Covers fin v t
      → After g fin ns (neighbors visit ns v t)
  unfolding neighbors
  neighbors-After visit f [] v t fin o c = (fin, o, λ x i. i, c, λ m i. absurd (cc))
  neighbors-After visit f (n ∷ ns) v t fin o c =
      by_test (After g fin (n ∷ ns)) (mem n v) _ _
        (λ iv.
          by_test (After g fin (n ∷ ns)) (mem n t) _ _ (λ _. tt)
            (λ no.
              After-widen g fin fin ns n (neighbors visit ns v t) (λ x i. i)
                (finished n fin t (c n iv) no) (neighbors-After visit f ns v t fin o c)))
        (λ _.
          After-bind g fin ns (visit n v t) (neighbors visit ns) n (f n v t fin o c)
            (λ more v1 t1 o1 c1. neighbors-After visit f ns v1 t1 more o1 c1))

  dfs-After :
      (fuel n : ℕ) (v t fin : List ℕ)
      → Ordered g fin
      → Covers fin v t
      → After g fin (n ∷ []) (dfs_visit g fuel n v t)
  unfolding dfs_visit
  dfs-After zero n v t fin o c = tt
  dfs-After (suc fuel) n v t fin o c =
      pop-After g n fin (neighbors (dfs_visit g fuel) (adj g n) (n ∷ v) (n ∷ t)) (
        neighbors-After (dfs_visit g fuel) (dfs-After fuel) (adj g n) (n ∷ v) (n ∷ t) fin o
          (λ x i. push-Covers n x fin v t c i))

  roots-After :
      (fuel : ℕ) (ns v t fin : List ℕ)
      → Ordered g fin
      → Covers fin v t
      → ((x : ℕ) → In x t → ⊥)
      → After g fin ns (roots g fuel ns v t)
  unfolding roots
  roots-After fuel [] v t fin o c e = (fin, o, λ x i. i, c, λ m i. absurd (cc))
  roots-After fuel (n ∷ ns) v t fin o c e =
      by_test (After g fin (n ∷ ns)) (mem n v) _ _
        (λ iv.
          After-widen g fin fin ns n (roots g fuel ns v t) (λ x i. i) (not_open n fin t e (c n iv))
            (roots-After fuel ns v t fin o c e))
        (λ _.
          root-bind g fin ns t (dfs_visit g fuel n v t) (roots g fuel ns) n e
            (dfs-Sound g fuel n v t (λ x i. absurd (e x i))) (dfs-After fuel n v t fin o c)
            (λ more v1 t1 o1 c1 e1. roots-After fuel ns v1 t1 more o1 c1 e1))

  pub search-Ordered :
      (ids : List ℕ) (v t : List ℕ)
      → search g ids ≡ clear v t
      → (l : List ℕ) × Ordered g l × ((m : ℕ) → In m ids → In m l)
  unfolding search
  search-Ordered ids v t h =
      let a : After g [] ids (clear v t) =
        subst (After g [] ids) h
          (roots-After (search_fuel g ids) ids [] [] [] tt (λ x i. inl i) (λ x i. absurd (cc))) in
      (a.0, a.1, a.4)
