-- ===== src/Dag/Fuel.antt =====
-- The fuel of the search: every nested visit meets a task that was not visited before.
use mathlib.Core.Path.{subst}
use native.Mathlib.Nat.{le_trans}
use litenyx.Common.{
  ℕ, zero, suc, ◌≤◌, ◌<◌, ◌≡◌, ◌≢◌, ap, ◌∙◌, false, List, [], ◌∷◌, ◌++◌, if◌then◌else◌, arith,
  length,
}
use litenyx.Dag.Search.{
  mem, erase, Adjacency, adj, named, Visit, cycle_found, clear, out_of_fuel, and_then, neighbors,
  dfs_visit, roots, search_fuel, search,
}
use litenyx.Dag.Reach.{In, by_test}

-- How many tasks of `u` are not visited.
abbrev unseen : List ℕ → List ℕ → ℕ
unseen [] v = 0
unseen (x ∷ u) v = if mem x v then unseen u v else suc (unseen u v)

unseen-length : (u v : List ℕ) → unseen u v ≤ length u
unseen-length [] v = omega arith
unseen-length (x ∷ u) v = ground (arith, unseen-length u v)

unseen-anti : (u v w : List ℕ) → ((x : ℕ) → In x v → In x w) → unseen u w ≤ unseen u v
unseen-anti [] v w h = omega arith
unseen-anti (x ∷ u) v w h = ground (arith, unseen-anti u v w h, h x)

unseen-visit : (u v : List ℕ) (n : ℕ) → In n u → mem n v ≡ false → unseen u (n ∷ v) < unseen u v
unseen-visit [] v n i e = absurd (cc)
unseen-visit (x ∷ u) v n i e =
    let a = unseen-anti u v (n ∷ v) (λ y j. ground arith) in
    let b = unseen-visit u v n in
    let c : x ≡ n → mem x v ≡ false = λ p. ap (λ (y : ℕ). mem y v) p ∙ e in ground arith

-- The search has fuel enough, and forgets no visited task.
abbrev Ends : List ℕ → Visit → Type 0
Ends v cycle_found = Unit {0}
Ends v (clear w s) = (x : ℕ) → In x v → In x w
Ends v out_of_fuel = ⊥

Ends-trans : (v w : List ℕ) (r : Visit) → ((x : ℕ) → In x v → In x w) → Ends w r → Ends v r
Ends-trans v w cycle_found h e = tt
Ends-trans v w out_of_fuel h e = e
Ends-trans v w (clear z s) h e = λ x i. e x (h x i)

pop-Ends :
    (n : ℕ) (v : List ℕ) (r : Visit)
    → Ends (n ∷ v) r
    → Ends v (and_then r (λ w t. clear w (erase n t)))
pop-Ends n v cycle_found e = tt
pop-Ends n v out_of_fuel e = e
pop-Ends n v (clear w t) e = λ x i. e x (ground arith)

Ends-bind :
    (v : List ℕ) (r : Visit) (k : List ℕ → List ℕ → Visit)
    → Ends v r
    → ((w s : List ℕ) → ((x : ℕ) → In x v → In x w) → Ends w (k w s))
    → Ends v (and_then r k)
Ends-bind v cycle_found k e h = tt
Ends-bind v out_of_fuel k e h = absurd e
Ends-bind v (clear w s) k e h = Ends-trans v w (k w s) e (h w s e)

module _ (g : Adjacency) (u : List ℕ) (closed : (n m : ℕ) → In m (adj g n) → In m u) where
  neighbors-Ends :
      (visit : ℕ → List ℕ → List ℕ → Visit) (fuel : ℕ)
      → ((n : ℕ) (v s : List ℕ)
          → In n u
          → mem n v ≡ false
          → unseen u v ≤ fuel
          → Ends v (visit n v s))
      → (ns v s : List ℕ) → ((m : ℕ) → In m ns → In m u)
      → unseen u v ≤ fuel
      → Ends v (neighbors visit ns v s)
  unfolding neighbors
  neighbors-Ends visit fuel f [] v s c l = λ x i. i
  neighbors-Ends visit fuel f (n ∷ ns) v s c l =
      let c1 = λ (m : ℕ) (i : In m ns). c m (ground arith) in
      by_test (Ends v) (mem n v) _ _
        (λ _.
          by_test (Ends v) (mem n s) _ _ (λ _. tt) (λ _. neighbors-Ends visit fuel f ns v s c1 l))
        (λ e.
          Ends-bind v (visit n v s) (neighbors visit ns) (f n v s (c n (ground arith)) e l)
            (λ w t h. neighbors-Ends visit fuel f ns w t c1 (le_trans (unseen-anti u v w h) l)))

  dfs-Ends :
      (fuel n : ℕ) (v s : List ℕ)
      → In n u
      → mem n v ≡ false
      → unseen u v ≤ fuel
      → Ends v (dfs_visit g fuel n v s)
  unfolding dfs_visit
  dfs-Ends zero n v s i e l = absurd (omega (arith, unseen-visit u v n i e))
  dfs-Ends (suc fuel) n v s i e l =
      pop-Ends n v (neighbors (dfs_visit g fuel) (adj g n) (n ∷ v) (n ∷ s)) (
        neighbors-Ends (dfs_visit g fuel) fuel (dfs-Ends fuel) (adj g n) (n ∷ v) (n ∷ s) (closed n)
          (omega (arith, unseen-visit u v n i e)))

  roots-Ends :
      (fuel : ℕ) (ns v s : List ℕ)
      → ((m : ℕ) → In m ns → In m u)
      → unseen u v ≤ fuel
      → Ends v (roots g fuel ns v s)
  unfolding roots
  roots-Ends fuel [] v s c l = λ x i. i
  roots-Ends fuel (n ∷ ns) v s c l =
      let c1 = λ (m : ℕ) (i : In m ns). c m (ground arith) in
      by_test (Ends v) (mem n v) _ _ (λ _. roots-Ends fuel ns v s c1 l)
        (λ e.
          Ends-bind v (dfs_visit g fuel n v s) (roots g fuel ns)
            (dfs-Ends fuel n v s (c n (ground arith)) e l)
            (λ w t h. roots-Ends fuel ns w t c1 (le_trans (unseen-anti u v w h) l)))

In-left : (l : List ℕ) (m : ℕ) (r : List ℕ) → In m l → In m (l ++ r)
In-left [] m r i = absurd (cc)
In-left (x ∷ l) m r i = ground (arith, In-left l m r)

In-right : (l : List ℕ) (m : ℕ) (r : List ℕ) → In m r → In m (l ++ r)
In-right [] m r i = i
In-right (x ∷ l) m r i = ground (arith, In-right l m r i)

named-closed : (g : Adjacency) (n m : ℕ) → In m (adj g n) → In m (named g)
named-closed [] n m i = i
named-closed ((k, ns) ∷ g) n m i =
    let l = In-left ns m (named g) in
    let r = λ (j : In m (named g)). In-right ns m (named g) j in
    let ih = named-closed g n m in ground arith

-- The search never runs out of fuel.
pub search-ends : (g : Adjacency) (ids : List ℕ) → search g ids ≢ out_of_fuel
unfolding search
search-ends g ids h =
    let u = ids ++ named g in
    let e : Ends [] out_of_fuel = subst (Ends []) h (
      roots-Ends g u (λ n m i. In-right ids m (named g) (named-closed g n m i)) (search_fuel g ids)
        ids [] [] (λ m i. In-left ids m (named g) i) (omega (arith, unseen-length u []))) in
    e
