-- ===== src/Dag/Grow.antt =====
-- `AddNode` and `Validate`.
use litenyx.Common.{
  ℕ, ◌≡◌, ◌≢◌, ◌↔◌, ◌⊎◌, inl, inr, refl, ap, ◌∙◌, Bool, true, false, ◌||◌, ◌&&◌, List, [], ◌∷◌,
  ◌==◌, if◌then◌else◌, arith, All,
}
use litenyx.Dag.Search.{mem, Adjacency, adj, has_cycle}
use litenyx.Dag.Reach.{In, Cyclic, In-cons}
use litenyx.Dag.Correct.{IsClosed, has_cycle_iff}
use litenyx.Dag.Edges.{adj-put, mem-insert_into}
use litenyx.Dag.Status.{Distinct}
use litenyx.Dag.Add.{by_if}
use litenyx.Dag.{
  TaskNode, Nodes, DependencyDag, ids, put, insert_into, add_dependencies, add_node, all_in,
  dependencies_exist, validate,
}

mem-add_dependencies :
    (g r : Adjacency) (id : ℕ) (deps : List ℕ) (n m : ℕ)
    → mem m (adj (add_dependencies g r id deps).0 n)
      ≡ (mem m (adj g n) || ((id == n) && mem m deps))
unfolding add_dependencies
mem-add_dependencies g r id [] n m = ground arith
mem-add_dependencies g r id (dep ∷ deps) n m =
    let e = mem-insert_into g id dep n m in
    mem-add_dependencies (insert_into g id dep) (insert_into r dep id) id deps n m ∙ ground arith

joined :
    (b c : Bool) (l : List ℕ) (m : ℕ) (z : Bool)
    → z ≡ mem m (if b then [] else l)
    → (z || (b && c)) ≡ (if b then c else mem m l)
joined true c l m z e = ground arith
joined false c l m z e = ground arith

-- The edges out of a new task are its dependencies, and those of the others stay.
mem-added :
    (g r : Adjacency) (id : ℕ) (deps : List ℕ) (n m : ℕ)
    → mem m (adj (add_dependencies (put g id []) r id deps).0 n)
      ≡ (if id == n then mem m deps else mem m (adj g n))
mem-added g r id deps n m =
    let e = ap (λ (l : List ℕ). mem m l) (adj-put g id [] n) in
    mem-add_dependencies (put g id []) r id deps n m
    ∙ joined (id == n) (mem m deps) (adj g n) m (mem m (adj (put g id []) n)) e

abbrev AddPost : DependencyDag → TaskNode → Bool × DependencyDag → Type 0
AddPost d n (ok, e) =
    ((ok ≡ false) ↔ ((n.task_id ≡ 0) ⊎ In n.task_id (ids d.nodes)))
    × (ok ≡ false → e ≡ d)
    × (ok ≡ true
        → (k m : ℕ)
        → mem m (adj e.adjacency k)
          ≡ (if n.task_id == k then mem m n.dependencies else mem m (adj d.adjacency k)))
    × Distinct e.nodes
    × IsClosed e.adjacency (ids e.nodes)

refuse :
    (d : DependencyDag) (n : TaskNode)
    → Distinct d.nodes
    → IsClosed d.adjacency (ids d.nodes)
    → (n.task_id ≡ 0) ⊎ In n.task_id (ids d.nodes)
    → AddPost d n (false, d)
refuse d n v c r = ((λ _. r, λ _. refl), λ _. refl, λ h. absurd (cc), v, c)

neither : (id : ℕ) (l : List ℕ) → id ≢ 0 → mem id l ≡ false → ((id ≡ 0) ⊎ In id l → ⊥)
neither id l z k (inl e) = z e
neither id l z k (inr i) = absurd (cc)

-- `AddNode` refuses exactly the empty id and an id that is there, and then changes nothing; otherwise
-- the edges out of the new task are its dependencies, also those that name no task, and the edges out of
-- the others stay. It keeps the ids distinct and that only tasks have dependencies.
pub add_node_lem :
    (d : DependencyDag) (n : TaskNode)
    → Distinct d.nodes
    → IsClosed d.adjacency (ids d.nodes)
    → let ok = (add_node d n).0 in
      let e = (add_node d n).1 in
      ((ok ≡ false) ↔ ((n.task_id ≡ 0) ⊎ In n.task_id (ids d.nodes)))
      × (ok ≡ false → e ≡ d)
      × (ok ≡ true
          → (k m : ℕ)
          → mem m (adj e.adjacency k)
            ≡ (if n.task_id == k then mem m n.dependencies else mem m (adj d.adjacency k)))
      × Distinct e.nodes
      × IsClosed e.adjacency (ids e.nodes)
unfolding add_node
add_node_lem d n v c =
    let known = mem n.task_id (ids d.nodes) in
    let P = AddPost d n in
    by_if P (n.task_id == 0) _ _ (λ e. refuse d n v c (inl (ground arith)))
      (λ z.
        by_if P known _ _ (λ e. refuse d n v c (inr e))
          (λ k. (
            (λ h. absurd (cc), λ r. absurd (neither n.task_id (ids d.nodes) (ground arith) k r)),
            λ h. absurd (cc),
            λ _ i m.
                mem-added d.adjacency (put d.reverse_adjacency n.task_id []) n.task_id
                  n.dependencies i m,
            (k, v),
            λ i m j.
                let e =
                  mem-added d.adjacency (put d.reverse_adjacency n.task_id []) n.task_id
                    n.dependencies i m in
                let h = c i m in ground arith,
          )))

abbrev pub DependenciesExist : Nodes → Nodes → Type 0
DependenciesExist known m = All (λ kn. (x : ℕ) → In x kn.1.dependencies → In x (ids known)) m

all_in_iff : (l known : List ℕ) → (all_in l known ≡ true) ↔ ((x : ℕ) → In x l → In x known)
all_in_iff [] known = (λ _ x i. absurd (cc), λ _. refl)
all_in_iff (y ∷ l) known =
    let (f, g) = all_in_iff l known in
    (
      λ h x i. elim (In-cons x y l i) [
        | inl p ↦ ap (λ (z : ℕ). mem z known) p ∙ ground arith
        | inr j ↦ f (ground arith) x j
      ],
      λ h. let a = h y (ground arith) in let b = g (λ x i. h x (ground arith)) in ground arith,
    )

dependencies_exist_iff :
    (known m : Nodes) → (dependencies_exist (ids known) m ≡ true) ↔ DependenciesExist known m
unfolding dependencies_exist
dependencies_exist_iff known [] = (λ _. tt, λ _. refl)
dependencies_exist_iff known ((k, n) ∷ m) =
    let (f, g) = dependencies_exist_iff known m in
    let (a, b) = all_in_iff n.dependencies (ids known) in
    (
      λ h. (a (ground arith), f (ground arith)),
      λ (p, q). let x = b p in let y = g q in ground arith,
    )

not_true : (b : Bool) → (b ≡ true → ⊥) → b ≡ false
not_true true h = absurd (h refl)
not_true false h = refl

-- Where only tasks have dependencies, a graph is valid exactly if it has no cycle, the dependencies that
-- each task lists are tasks, and no task has the empty id.
pub validate_iff :
    (d : DependencyDag)
    → IsClosed d.adjacency (ids d.nodes)
    → (validate d ≡ true)
      ↔ ((Cyclic d.adjacency → ⊥) × DependenciesExist d.nodes d.nodes × (In 0 (ids d.nodes) → ⊥))
unfolding validate
validate_iff d c =
    let (f, g) = (has_cycle_iff d.adjacency (ids d.nodes) c).0 in
    let (a, b) = dependencies_exist_iff d.nodes d.nodes in
    (
      λ h.
          (λ k. let x = g k in absurd (ground arith), a (ground arith), λ i. absurd (ground arith)),
      λ (k, e, z).
          let x = b e in
          let y = not_true (has_cycle d.adjacency (ids d.nodes)) (λ h. k (f h)) in
          let w = not_true (mem 0 (ids d.nodes)) z in ground arith,
    )
