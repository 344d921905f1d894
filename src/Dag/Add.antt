-- ===== src/Dag/Add.antt =====
-- `AddEdge`: when it refuses, and that the graph stays without cycles.
use litenyx.Common.{
  ℕ, ◌≡◌, ◌↔◌, ◌⊎◌, inl, inr, refl, sym, ap, ◌∙◌, Bool, true, false, not, [], ◌∷◌, if◌then◌else◌,
  arith,
}
use litenyx.Dag.Search.{mem, Adjacency, adj, has_cycle}
use litenyx.Dag.Reach.{In, edge, Cyclic}
use litenyx.Dag.Correct.{IsClosed, has_cycle_iff}
use litenyx.Dag.Edges.{
  LeadsTo, join, insert-Cyclic, insert-new, mem-insert_into, mem-restored, Reach-map,
}
use litenyx.Dag.{
  Nodes, TaskNode, DependencyDag, ids, insert_into, erase_from, change_node, add_dependency,
  add_edge,
}

abbrev pub SameEdges : Adjacency → Adjacency → Type 0
SameEdges g h = (n m : ℕ) → mem m (adj g n) ≡ mem m (adj h n)

abbrev pub Refused : DependencyDag → ℕ → ℕ → Type 0
Refused d from to =
    (mem from (ids d.nodes) ≡ false)
    ⊎ ((mem to (ids d.nodes) ≡ false) ⊎ LeadsTo d.adjacency to from)

-- A graph without cycles in which only tasks have dependencies.
abbrev pub IsDag : DependencyDag → Type 0
IsDag d = (Cyclic d.adjacency → ⊥) × IsClosed d.adjacency (ids d.nodes)

abbrev Kept : DependencyDag → DependencyDag → Type 0
Kept d e = (e.nodes ≡ d.nodes) × SameEdges e.adjacency d.adjacency

abbrev Post : DependencyDag → ℕ → ℕ → Bool × DependencyDag → Type 0
Post d from to (ok, e) =
    IsDag e
    × ((ok ≡ false) ↔ Refused d from to)
    × (ok ≡ false → Kept d e)
    × (ok ≡ true → In to (adj e.adjacency from))

pub contradict : {b : Bool} → b ≡ true → b ≡ false → ⊥
contradict p q = absurd (cc)

pub by_if {ℓ κ} :
    {A : Type ℓ} (P : A → Type κ) (b : Bool) (x y : A)
    → (b ≡ true → P x)
    → (b ≡ false → P y)
    → P (if b then x else y)
by_if P true x y f g = f refl
by_if P false x y f g = g refl

ids-change : (m : Nodes) (id : ℕ) (f : TaskNode → TaskNode) → ids (change_node m id f) ≡ ids m
ids-change [] id f = refl
ids-change ((k, n) ∷ m) id f = ground (arith, ids-change m id f)

abbrev restored : DependencyDag → ℕ → ℕ → DependencyDag
restored d from to = record {
  nodes = d.nodes;
  adjacency = erase_from (insert_into d.adjacency from to) from to;
  reverse_adjacency = erase_from (insert_into d.reverse_adjacency to from) to from;
}

abbrev extended : DependencyDag → ℕ → ℕ → DependencyDag
extended d from to = record {
  nodes = change_node d.nodes from (add_dependency to);
  adjacency = insert_into d.adjacency from to;
  reverse_adjacency = insert_into d.reverse_adjacency to from;
}

module _ (d : DependencyDag) (from to : ℕ) (v : IsDag d) where
  Refused-Post : Refused d from to → Post d from to (false, d)
  Refused-Post r = (v, (λ _. r, λ _. refl), λ _. (refl, λ n m. refl), λ e. absurd (cc))

  not-Refused :
      In from (ids d.nodes)
      → In to (ids d.nodes)
      → (LeadsTo d.adjacency to from → ⊥)
      → Refused d from to
      → ⊥
  not-Refused f t n (inl e) = absurd (cc)
  not-Refused f t n (inr (inl e)) = absurd (cc)
  not-Refused f t n (inr (inr l)) = n l

  present-Post :
      In from (ids d.nodes)
      → In to (ids d.nodes)
      → In to (adj d.adjacency from)
      → Post d from to (true, d)
  present-Post f t e = (
    v,
    (λ h. absurd (cc), λ r. absurd (not-Refused f t (λ l. v.0 (from, join (edge e) l)) r)),
    λ h. absurd (cc),
    λ _. e,
  )

  larger-IsClosed : In from (ids d.nodes) → IsClosed (insert_into d.adjacency from to) (ids d.nodes)
  larger-IsClosed f n m i =
      let e = mem-insert_into d.adjacency from to n m in
      let c = v.1 n m in
      let k : from ≡ n → In n (ids d.nodes) =
        λ p. ap (λ (x : ℕ). mem x (ids d.nodes)) (sym p) ∙ f in
      ground arith

  restored-Post :
      LeadsTo d.adjacency to from
      → mem to (adj d.adjacency from) ≡ false
      → Post d from to (false, restored d from to)
  restored-Post l e =
      let same : SameEdges (erase_from (insert_into d.adjacency from to) from to) d.adjacency =
        λ n m. mem-restored d.adjacency from to n m e in
      (
        (
          λ (x, r). v.0 (x, Reach-map (λ n m i. sym (same n m) ∙ i) r),
          λ n m i. v.1 n m (sym (same n m) ∙ i),
        ),
        (λ _. inr (inr l), λ _. refl),
        λ _. (refl, same),
        λ h. absurd (cc),
      )

  extended-Post :
      In from (ids d.nodes)
      → In to (ids d.nodes)
      → (Cyclic (insert_into d.adjacency from to) → ⊥)
      → Post d from to (true, extended d from to)
  extended-Post f t a = (
    (a, rw (ids-change d.nodes from (add_dependency to)) (larger-IsClosed f)),
    (
      λ h. absurd (cc),
      λ r. absurd (not-Refused f t (λ l. a ((insert-Cyclic d.adjacency from to v.0).1 l)) r),
    ),
    λ h. absurd (cc),
    λ _. insert-new d.adjacency from to,
  )

-- On a graph without cycles in which only tasks have dependencies, `AddEdge` keeps both; it refuses
-- exactly if one of the tasks is missing, they are the same, or the second depends on the first,
-- directly or not; a refusal leaves the tasks and the edges as they were, and otherwise the edge is there.
pub add_edge_lem :
    (d : DependencyDag) (from to : ℕ)
    → IsDag d
    → let ok = (add_edge d from to).0 in
      let e = (add_edge d from to).1 in
      IsDag e
      × ((ok ≡ false) ↔ Refused d from to)
      × (ok ≡ false → (e.nodes ≡ d.nodes) × SameEdges e.adjacency d.adjacency)
      × (ok ≡ true → In to (adj e.adjacency from))
unfolding add_edge
add_edge_lem d from to v =
    let P = Post d from to in
    let c = λ (f : In from (ids d.nodes)).
      has_cycle_iff (insert_into d.adjacency from to) (ids d.nodes)
        (larger-IsClosed d from to v f) in
    by_if P (not (mem from (ids d.nodes))) _ _ (λ h. Refused-Post d from to v (inl (ground arith)))
      (λ f.
        by_if P (not (mem to (ids d.nodes))) _ _
          (λ h. Refused-Post d from to v (inr (inl (ground arith))))
          (λ t.
            by_if P (mem to (adj d.adjacency from)) _ _
              (λ e. present-Post d from to v (ground arith) (ground arith) e)
              (λ e.
                by_if P (has_cycle (insert_into d.adjacency from to) (ids d.nodes)) _ _
                  (λ h.
                    restored-Post d from to v
                      ((insert-Cyclic d.adjacency from to v.0).0 ((c (ground arith)).0.0 h)) e)
                  (λ h.
                    extended-Post d from to v (ground arith) (ground arith)
                      (λ k. contradict ((c (ground arith)).0.1 k) h)))))
