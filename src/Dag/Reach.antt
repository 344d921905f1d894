-- ===== src/Dag/Reach.antt =====
-- Reachability along dependencies, and what a found cycle is.
use litenyx.Common.{
  ℕ, zero, suc, ◌≡◌, ◌⊎◌, inl, inr, refl, sym, Bool, true, false, List, [], ◌∷◌, arith,
}
use mathlib.Core.Path.{subst}
use litenyx.Dag.Search.{
  mem, erase, Adjacency, adj, Visit, cycle_found, clear, out_of_fuel, and_then, neighbors,
  dfs_visit, roots, search_fuel, search, is_cycle_found, has_cycle,
}

abbrev pub In : ℕ → List ℕ → Type 0
In x l = mem x l ≡ true

-- One dependency or more lead from the first task to the second.
pub data Reach (g : Adjacency) : ℕ → ℕ → Type 0 where
  edge : {x y : ℕ} → In y (adj g x) → Reach g x y
  step : {x y z : ℕ} → In y (adj g x) → Reach g y z → Reach g x z

pub extend : {g : Adjacency} {x y z : ℕ} → Reach g x y → In z (adj g y) → Reach g x z
extend (edge e) f = step e (edge f)
extend (step e r) f = step e (extend r f)

abbrev pub Cyclic : Adjacency → Type 0
Cyclic g = (x : ℕ) × Reach g x x

-- A search whose answer is a cycle has one, and its stack on return holds nothing new.
abbrev pub Sound : Adjacency → List ℕ → Visit → Type 0
Sound g stack cycle_found = Cyclic g
Sound g stack (clear v s) = (x : ℕ) → In x s → In x stack
Sound g stack out_of_fuel = Unit {0}

-- The tasks on the stack lead to `n`.
abbrev pub Leads : Adjacency → List ℕ → ℕ → Type 0
Leads g stack n = (x : ℕ) → In x stack → Reach g x n

Sound-trans :
    (g : Adjacency) (s t : List ℕ) (r : Visit)
    → ((x : ℕ) → In x s → In x t)
    → Sound g s r
    → Sound g t r
Sound-trans g s t cycle_found h p = p
Sound-trans g s t (clear v u) h p = λ x i. h x (p x i)
Sound-trans g s t out_of_fuel h p = tt

Sound-bind :
    (g : Adjacency) (t : List ℕ) (r : Visit) (k : List ℕ → List ℕ → Visit)
    → Sound g t r
    → ((v s : List ℕ) → ((x : ℕ) → In x s → In x t) → Sound g t (k v s))
    → Sound g t (and_then r k)
Sound-bind g t cycle_found k p h = p
Sound-bind g t (clear v s) k p h = h v s p
Sound-bind g t out_of_fuel k p h = tt

In-erase : (n x : ℕ) (l : List ℕ) → In x (erase n l) → In x l
In-erase n x [] h = h
In-erase n x (y ∷ l) h = ground (arith, In-erase n x l)

not-erase : (n : ℕ) (l : List ℕ) → mem n (erase n l) ≡ false
not-erase n [] = refl
not-erase n (y ∷ l) = ground (arith, not-erase n l)

pub by_test {ℓ} :
    (P : Visit → Type ℓ) (b : Bool) (r t : Visit)
    → (b ≡ true → P r)
    → (b ≡ false → P t)
    → P (elim b [ true ↦ r | false ↦ t ])
by_test P true r t f g = f refl
by_test P false r t f g = g refl

pub In-cons : (x n : ℕ) (s : List ℕ) → In x (n ∷ s) → (x ≡ n) ⊎ In x s
In-cons x n s h = ground arith

erase-under :
    (n x : ℕ) (l s : List ℕ) → ((y : ℕ) → In y l → In y (n ∷ s)) → In x (erase n l) → In x s
erase-under n x l s h i = let j = h x (In-erase n x l i) in let e = not-erase n l in ground (arith)

module _ (g : Adjacency) where
  lead_further :
      (n m x : ℕ) (s : List ℕ) → Leads g s n → In m (adj g n) → In x (n ∷ s) → Reach g x m
  lead_further n m x s l e i = elim (In-cons x n s i) [
    | inl p ↦ subst (λ (y : ℕ). Reach g y m) (sym p) (edge e)
    | inr j ↦ extend (l x j) e
  ]

  neighbors-Sound :
      (visit : ℕ → List ℕ → List ℕ → Visit)
      → ((n : ℕ) (v s : List ℕ) → Leads g s n → Sound g s (visit n v s))
      → (n : ℕ) (s : List ℕ) → Leads g s n
      → (ns : List ℕ) → ((m : ℕ) → In m ns → In m (adj g n))
      → (v t : List ℕ) → ((x : ℕ) → In x t → In x (n ∷ s))
      → Sound g (n ∷ s) (neighbors visit ns v t)
  unfolding neighbors
  neighbors-Sound visit f n s l [] e v t h = h
  neighbors-Sound visit f n s l (m ∷ ns) e v t h =
      let rest = λ (v1 t1 : List ℕ) (h1 : (x : ℕ) → In x t1 → In x (n ∷ s)).
        neighbors-Sound visit f n s l ns (λ k i. e k (ground arith)) v1 t1 h1 in
      let em : In m (adj g n) = e m (ground arith) in
      by_test (Sound g (n ∷ s)) (mem m v) _ _
        (λ _.
          by_test (Sound g (n ∷ s)) (mem m t) _ _ (λ i. (m, lead_further n m m s l em (h m i)))
            (λ _. rest v t h))
        (λ _.
          Sound-bind g (n ∷ s) (visit m v t) (neighbors visit ns)
            (Sound-trans g t (n ∷ s) (visit m v t) h
              (f m v t (λ x i. lead_further n m x s l em (h x i))))
            rest)

  pop-Sound :
      (n : ℕ) (s : List ℕ) (r : Visit)
      → Sound g (n ∷ s) r
      → Sound g s (and_then r (λ v t. clear v (erase n t)))
  pop-Sound n s cycle_found p = p
  pop-Sound n s (clear v t) p = λ x i. erase-under n x t s p i
  pop-Sound n s out_of_fuel p = tt

  found-Cyclic : (r : Visit) → Sound g [] r → is_cycle_found r ≡ true → Cyclic g
  found-Cyclic cycle_found p h = p
  found-Cyclic (clear v s) p h = absurd (cc)
  found-Cyclic out_of_fuel p h = absurd (cc)

  pub dfs-Sound : (fuel n : ℕ) (v s : List ℕ) → Leads g s n → Sound g s (dfs_visit g fuel n v s)
  unfolding dfs_visit
  dfs-Sound zero n v s l = tt
  dfs-Sound (suc fuel) n v s l =
      let r =
        neighbors-Sound (dfs_visit g fuel) (dfs-Sound fuel) n s l (adj g n) (λ m i. i) (n ∷ v)
          (n ∷ s) (λ x i. i) in
      pop-Sound n s (neighbors (dfs_visit g fuel) (adj g n) (n ∷ v) (n ∷ s)) r

  roots-Sound :
      (fuel : ℕ) (ns v s : List ℕ) → ((x : ℕ) → In x s → ⊥) → Sound g s (roots g fuel ns v s)
  unfolding roots
  roots-Sound fuel [] v s e = λ x i. i
  roots-Sound fuel (n ∷ ns) v s e =
      by_test (Sound g s) (mem n v) _ _ (λ _. roots-Sound fuel ns v s e)
        (λ _.
          Sound-bind g s (dfs_visit g fuel n v s) (roots g fuel ns)
            (dfs-Sound fuel n v s (λ x i. absurd (e x i)))
            (λ v1 s1 h.
              Sound-trans g s1 s (roots g fuel ns v1 s1) h
                (roots-Sound fuel ns v1 s1 (λ x i. e x (h x i)))))

  pub has_cycle-Cyclic : (ids : List ℕ) → has_cycle g ids ≡ true → Cyclic g
  unfolding has_cycle search
  has_cycle-Cyclic ids h =
      found-Cyclic (roots g (search_fuel g ids) ids [] [])
        (roots-Sound (search_fuel g ids) ids [] [] (λ x i. absurd (cc))) h
