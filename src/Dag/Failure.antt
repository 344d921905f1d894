-- ===== src/Dag/Failure.antt =====
-- `UpdateTaskStatus`: which entries a failure changes.
use mathlib.Core.Path.{subst}
use litenyx.Common.{
  ℕ, ◌≡◌, ◌≢◌, inl, inr, refl, sym, ap, ◌∙◌, false, none, some, List, [], ◌∷◌, ◌==◌, if◌then◌else◌,
  arith, Bool-cases, ==_iff,
}
use litenyx.Dag.Search.{mem, adj}
use litenyx.Dag.Reach.{In, In-cons}
use litenyx.Dag.Status.{HasStatus}
use litenyx.Dag.{
  TaskStatus, failed, blocked, blank, FailureReason, dependency_failed, TaskNode, Nodes,
  DependencyDag, ids, find_node, change_node, set_status, with_status, block_dependents,
  update_task_status,
}

find-change :
    (m : Nodes) (id : ℕ) (f : TaskNode → TaskNode) (x : ℕ)
    → find_node (change_node m id f) x ≡ (
        if x == id
        then elim (find_node m x) [ none ↦ none | some n ↦ some (f n) ]
        else find_node m x)
find-change [] id f x = ground arith
find-change ((k, n) ∷ m) id f x = ground (arith, find-change m id f x)

set_status-other :
    (m : Nodes) (id : ℕ) (s : TaskStatus) (r : FailureReason) (x : ℕ)
    → x ≢ id
    → find_node (set_status m id s r) x ≡ find_node m x
set_status-other m id s r x d = let e = find-change m id (with_status s r) x in ground arith

known : (m : Nodes) (id : ℕ) → In id (ids m) → (n : TaskNode) × (find_node m id ≡ some n)
known [] id i = absurd (cc)
known ((k, n) ∷ m) id i = elim (Bool-cases (k == id)) [
  | inl e ↦ (n, ground arith)
  | inr e ↦ let (l, q) = known m id (ground arith) in (l, ground arith)
]

changed :
    (m : Nodes) (id : ℕ) (s : TaskStatus) (r : FailureReason) (n : TaskNode)
    → In id (ids m)
    → find_node m id ≡ some n
    → find_node (set_status m id s r) id ≡ some (with_status s r n)
changed m id s r n e q = let c = find-change m id (with_status s r) id in ground arith

added :
    (m : Nodes) (id : ℕ) (s : TaskStatus) (r : FailureReason)
    → mem id (ids m) ≡ false
    → find_node (set_status m id s r) id ≡ some (blank s r)
added m id s r e = ground arith

set_status-same :
    (m : Nodes) (id : ℕ) (s : TaskStatus) (r : FailureReason) → HasStatus (set_status m id s r) id s
set_status-same m id s r = elim (Bool-cases (mem id (ids m))) [
  | inl e ↦ let (n, q) = known m id e in (with_status s r n, changed m id s r n e q, refl)
  | inr e ↦ (blank s r, added m id s r e, refl)
]

block-keeps :
    (m : Nodes) (id : ℕ) (xs : List ℕ) (x : ℕ)
    → HasStatus m x blocked
    → HasStatus (block_dependents m id xs) x blocked
unfolding block_dependents
block-keeps m id [] x h = h
block-keeps m id (y ∷ xs) x h =
    block-keeps (set_status m y blocked (dependency_failed id)) id xs x
      (elim (Bool-cases (x == y)) [
        | inl e ↦
            subst (λ (z : ℕ). HasStatus (set_status m y blocked (dependency_failed id)) z blocked)
              (sym ((==_iff x y).0 e)) (set_status-same m y blocked (dependency_failed id))
        | inr e ↦
            let (n, q, z) = h in
            (n, set_status-other m y blocked (dependency_failed id) x (ground arith) ∙ q, z)
      ])

block-In :
    (m : Nodes) (id : ℕ) (xs : List ℕ) (x : ℕ)
    → In x xs
    → HasStatus (block_dependents m id xs) x blocked
unfolding block_dependents
block-In m id [] x i = absurd (cc)
block-In m id (y ∷ xs) x i = elim (In-cons x y xs i) [
  | inl p ↦ block-keeps (set_status m y blocked (dependency_failed id)) id xs x (
      subst (λ (z : ℕ). HasStatus (set_status m y blocked (dependency_failed id)) z blocked) (sym p)
        (set_status-same m y blocked (dependency_failed id)))
  | inr j ↦ block-In (set_status m y blocked (dependency_failed id)) id xs x j
]

block-other :
    (m : Nodes) (id : ℕ) (xs : List ℕ) (x : ℕ)
    → mem x xs ≡ false
    → find_node (block_dependents m id xs) x ≡ find_node m x
unfolding block_dependents
block-other m id [] x i = refl
block-other m id (y ∷ xs) x i =
    block-other (set_status m y blocked (dependency_failed id)) id xs x (ground arith)
    ∙ set_status-other m y blocked (dependency_failed id) x (ground arith)

failed_nodes :
    (d : DependencyDag) (id : ℕ) (r : FailureReason)
    → In id (ids d.nodes)
    → (update_task_status d id failed r).1.nodes
      ≡ block_dependents (set_status d.nodes id failed r) id (adj d.reverse_adjacency id)
unfolding update_task_status
failed_nodes d id r i = ground arith

-- When a task fails, each of its recorded direct dependents is blocked, whatever it was before; the task
-- itself is failed unless it is its own dependent; and every other entry, also that of a task that
-- depends on it through others, stays as it was.
pub update_task_status_lem :
    (d : DependencyDag) (id : ℕ) (r : FailureReason) (x : ℕ)
    → In id (ids d.nodes)
    → let m = (update_task_status d id failed r).1.nodes in
      let dependents = adj d.reverse_adjacency id in
      (In x dependents → HasStatus m x blocked)
      × (mem id dependents ≡ false → HasStatus m id failed)
      × (mem x dependents ≡ false → x ≢ id → find_node m x ≡ find_node d.nodes x)
update_task_status_lem d id r x i =
    let m1 = set_status d.nodes id failed r in
    let xs = adj d.reverse_adjacency id in
    let e = sym (failed_nodes d id r i) in
    (
      λ j. subst (λ (m : Nodes). HasStatus m x blocked) e (block-In m1 id xs x j),
      λ no.
          let (n, q, z) = set_status-same d.nodes id failed r in
          subst (λ (m : Nodes). HasStatus m id failed) e (n, block-other m1 id xs id no ∙ q, z),
      λ no k.
          ap (λ (m : Nodes). find_node m x) (sym e)
          ∙ (block-other m1 id xs x no ∙ set_status-other d.nodes id failed r x k),
    )
