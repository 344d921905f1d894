-- ===== src/Dag/Edges.antt =====
-- One edge more or less: what it does to the edges, and when it closes a cycle.
use mathlib.Core.Path.{subst}
use litenyx.Common.{
  ℕ, ◌≡◌, ◌↔◌, ◌⊎◌, inl, inr, refl, sym, ap, ◌∙◌, Bool, true, false, not, ◌||◌, ◌&&◌, ==_iff, List,
  [], ◌∷◌, ◌==◌, if◌then◌else◌, arith,
}
use litenyx.Dag.Search.{mem, erase, Adjacency, adj}
use litenyx.Dag.Reach.{In, Reach, edge, step, Cyclic}
use litenyx.Dag.{put, insert_into, erase_from}

pub adj-put :
    (g : Adjacency) (id : ℕ) (s : List ℕ) (n : ℕ)
    → adj (put g id s) n ≡ (if id == n then s else adj g n)
adj-put [] id s n = refl
adj-put ((k, ns) ∷ g) id s n = ground (arith, adj-put g id s n)

-- The edges of a graph are those of another and, maybe, one more.
abbrev Extends : Adjacency → Adjacency → ℕ → ℕ → Type 0
Extends g h from to = (n m : ℕ) → In m (adj h n) → In m (adj g n) ⊎ ((n ≡ from) × (m ≡ to))

mem-inserted :
    (b : Bool) (l k : List ℕ) (to m : ℕ)
    → (b ≡ true → l ≡ k)
    → mem m (if b then (if mem to l then l else to ∷ l) else k) ≡ (mem m k || (b && (m == to)))
mem-inserted false l k to m e = ground arith
mem-inserted true l k to m e =
    let q = e refl in
    let c : m ≡ to → mem m k ≡ mem to k = λ p. ap (λ (x : ℕ). mem x k) p in rw q (ground arith)

pub mem-insert_into :
    (g : Adjacency) (from to n m : ℕ)
    → mem m (adj (insert_into g from to) n) ≡ (mem m (adj g n) || ((from == n) && (m == to)))
mem-insert_into g from to n m =
    ap (λ (l : List ℕ). mem m l)
      (adj-put g from (if mem to (adj g from) then adj g from else to ∷ adj g from) n)
    ∙ mem-inserted (from == n) (adj g from) (adj g n) to m
        (λ e. ap (λ (x : ℕ). adj g x) ((==_iff from n).0 e))

insert-Extends : (g : Adjacency) (from to : ℕ) → Extends g (insert_into g from to) from to
insert-Extends g from to n m i = let e = mem-insert_into g from to n m in ground arith

insert-adj :
    (g : Adjacency) (from to n m : ℕ) → In m (adj g n) → In m (adj (insert_into g from to) n)
insert-adj g from to n m i = mem-insert_into g from to n m ∙ ground arith

pub insert-new : (g : Adjacency) (from to : ℕ) → In to (adj (insert_into g from to) from)
insert-new g from to = mem-insert_into g from to from to ∙ ground arith

pub Reach-map :
    {g h : Adjacency}
    → ((n m : ℕ) → In m (adj g n) → In m (adj h n))
    → {x y : ℕ} → Reach g x y
    → Reach h x y
Reach-map f {x} (edge {y = y} e) = edge (f x y e)
Reach-map f {x} (step {y = y} e r) = step (f x y e) (Reach-map f r)

-- No dependency, or some, lead from the first task to the second.
abbrev pub LeadsTo : Adjacency → ℕ → ℕ → Type 0
LeadsTo g x y = (x ≡ y) ⊎ Reach g x y

prepend : {g : Adjacency} {x y z : ℕ} → In y (adj g x) → LeadsTo g y z → Reach g x z
prepend {g} {x} {y} {z} e (inl p) = edge (subst (λ (w : ℕ). In w (adj g x)) p e)
prepend e (inr r) = step e r

pub join : {g : Adjacency} {x y z : ℕ} → Reach g x y → LeadsTo g y z → Reach g x z
join (edge e) l = prepend e l
join (step e r) l = step e (join r l)

extend_left : {g : Adjacency} {x y z : ℕ} → In y (adj g x) → LeadsTo g y z → LeadsTo g x z
extend_left e l = inr (prepend e l)

join_ways :
    (g : Adjacency) (from to : ℕ) {x y z : ℕ}
    → In y (adj g x) ⊎ ((x ≡ from) × (y ≡ to))
    → Reach g y z ⊎ (LeadsTo g y from × LeadsTo g to z)
    → Reach g x z ⊎ (LeadsTo g x from × LeadsTo g to z)
join_ways g from to (inl i) (inl r) = inl (step i r)
join_ways g from to (inl i) (inr (l, k)) = inr (extend_left i l, k)
join_ways g from to {z = z} (inr (p, q)) (inl r) =
    inr (inl p, inr (subst (λ (w : ℕ). Reach g w z) q r))
join_ways g from to (inr (p, q)) (inr (l, k)) = inr (inl p, k)

lead_trans : {g : Adjacency} {x y z : ℕ} → LeadsTo g x y → LeadsTo g y z → LeadsTo g x z
lead_trans {g} {x} {y} {z} (inl p) l = subst (λ (w : ℕ). LeadsTo g w z) (sym p) l
lead_trans (inr r) l = inr (join r l)

closing :
    (g : Adjacency) (from to x : ℕ)
    → (Cyclic g → ⊥)
    → Reach g x x ⊎ (LeadsTo g x from × LeadsTo g to x)
    → LeadsTo g to from
closing g from to x a (inl r) = absurd (a (x, r))
closing g from to x a (inr (l, k)) = lead_trans k l

-- A way in the larger graph is one in the smaller, or it takes the new edge.
split_way :
    (g h : Adjacency) (from to : ℕ) {x y : ℕ}
    → Extends g h from to
    → Reach h x y
    → Reach g x y ⊎ (LeadsTo g x from × LeadsTo g to y)
split_way g h from to {x} {y} f (edge e) = elim (f x y e) [
  | inl i ↦ inl (edge i)
  | inr (p, q) ↦ inr (inl p, inl (sym q))
]
split_way g h from to {x} f (step {y = y} e r) =
    join_ways g from to (f x y e) (split_way g h from to f r)

-- An added edge closes a cycle exactly if its end already leads to its start.
pub insert-Cyclic :
    (g : Adjacency) (from to : ℕ)
    → (Cyclic g → ⊥)
    → Cyclic (insert_into g from to) ↔ LeadsTo g to from
insert-Cyclic g from to a = (
  λ (x, r).
      closing g from to x a
        (split_way g (insert_into g from to) from to (insert-Extends g from to) r),
  λ l. elim l [
    | inl p ↦ (
      from,
      edge (subst (λ (y : ℕ). In y (adj (insert_into g from to) from)) p (insert-new g from to)),
    )
    | inr r ↦ (from, step (insert-new g from to) (Reach-map (insert-adj g from to) r))
  ],
)

mem-erase : (m to : ℕ) (l : List ℕ) → mem m (erase to l) ≡ (mem m l && not (m == to))
mem-erase m to [] = refl
mem-erase m to (y ∷ l) = ground (arith, mem-erase m to l)

mem-erased :
    (b : Bool) (l k : List ℕ) (to m : ℕ)
    → (b ≡ true → l ≡ k)
    → mem m (if b then erase to l else k) ≡ (mem m k && not (b && (m == to)))
mem-erased false l k to m e = ground arith
mem-erased true l k to m e = rw (e refl) (mem-erase m to k)

mem-erase_from :
    (g : Adjacency) (from to n m : ℕ)
    → mem m (adj (erase_from g from to) n) ≡ (mem m (adj g n) && not ((from == n) && (m == to)))
mem-erase_from g from to n m =
    ap (λ (l : List ℕ). mem m l) (adj-put g from (erase to (adj g from)) n)
    ∙ mem-erased (from == n) (adj g from) (adj g n) to m
        (λ e. ap (λ (x : ℕ). adj g x) ((==_iff from n).0 e))

-- A new edge that is taken out again leaves the edges as they were.
pub mem-restored :
    (g : Adjacency) (from to n m : ℕ)
    → mem to (adj g from) ≡ false
    → mem m (adj (erase_from (insert_into g from to) from to) n) ≡ mem m (adj g n)
mem-restored g from to n m e =
    let i = mem-insert_into g from to n m in
    let c : from ≡ n → mem m (adj g n) ≡ mem m (adj g from) =
      λ p. ap (λ (x : ℕ). mem m (adj g x)) (sym p) in
    let k : m ≡ to → mem m (adj g from) ≡ mem to (adj g from) =
      λ p. ap (λ (x : ℕ). mem x (adj g from)) p in
    mem-erase_from (insert_into g from to) from to n m ∙ ground arith
