-- ===== src/Dag/Status.antt =====
-- `IsTaskReady` and `GetReadyTasks` against the states of the dependencies.
use mathlib.Core.Option.{some-injective}
use mathlib.Core.Path.{subst}
use litenyx.Common.{
  ℕ, ◌≡◌, ◌≢◌, ◌↔◌, ◌⊎◌, inl, inr, refl, sym, ap, ◌∙◌, Bool, true, false, ◌&&◌, Option, none, some,
  List, [], ◌∷◌, ◌==◌, if◌then◌else◌, arith, Bool-cases, ==_iff,
}
use litenyx.Dag.Search.{mem}
use litenyx.Dag.Reach.{In, In-cons}
use litenyx.Dag.{
  TaskStatus, pending, ready, running, completed, failed, blocked, TaskNode, Nodes, DependencyDag,
  ids, find_node, is_pending, is_completed, all_completed, is_task_ready, select, get_ready_tasks,
}

-- No id has two entries.
abbrev pub Distinct : Nodes → Type 0
Distinct [] = Unit
Distinct ((k, n) ∷ m) = (mem k (ids m) ≡ false) × Distinct m

abbrev pub HasStatus : Nodes → ℕ → TaskStatus → Type 0
HasStatus m id s = (n : TaskNode) × (find_node m id ≡ some n) × (n.status ≡ s)

abbrev pub AllCompleted : Nodes → List ℕ → Type 0
AllCompleted m deps = (x : ℕ) → In x deps → HasStatus m x completed

is_completed_iff : (s : TaskStatus) → (is_completed s ≡ true) ↔ (s ≡ completed)
is_completed_iff pending = ground arith
is_completed_iff ready = ground arith
is_completed_iff running = ground arith
is_completed_iff completed = (λ _. refl, λ _. refl)
is_completed_iff failed = ground arith
is_completed_iff blocked = ground arith

is_pending_iff : (s : TaskStatus) → (is_pending s ≡ true) ↔ (s ≡ pending)
is_pending_iff pending = (λ _. refl, λ _. refl)
is_pending_iff ready = ground arith
is_pending_iff running = ground arith
is_pending_iff completed = ground arith
is_pending_iff failed = ground arith
is_pending_iff blocked = ground arith

In-cons_completed :
    (m : Nodes) (dep : ℕ) (deps : List ℕ) (n : TaskNode)
    → find_node m dep ≡ some n
    → n.status ≡ completed
    → AllCompleted m deps
    → AllCompleted m (dep ∷ deps)
In-cons_completed m dep deps n e s a x i = elim (In-cons x dep deps i) [
  | inl p ↦ (n, ap (λ (y : ℕ). find_node m y) p ∙ e, s)
  | inr j ↦ a x j
]

all_step :
    (m : Nodes) (dep : ℕ) (deps : List ℕ) (o : Option TaskNode)
    → find_node m dep ≡ o
    → ((all_completed m deps ≡ true) ↔ AllCompleted m deps)
    → ((elim o [ none ↦ false | some n ↦ is_completed n.status && all_completed m deps ]) ≡ true)
      ↔ AllCompleted m (dep ∷ deps)
all_step m dep deps none e ih =
    (λ h. absurd (cc), λ a. let (n, q, s) = a dep (ground arith) in absurd (cc))
all_step m dep deps (some n) e (f, g) =
    let (c, k) = is_completed_iff n.status in
    (
      λ h. In-cons_completed m dep deps n e (c (ground arith)) (f (ground arith)),
      λ a.
          let (l, q, s) = a dep (ground arith) in
          let z : l.status ≡ n.status =
            ap (λ (t : TaskNode). t.status) (some-injective l n (sym q ∙ e)) in
          let y = k (sym z ∙ s) in let w = g (λ x i. a x (ground arith)) in ground arith,
    )

all_completed_iff :
    (m : Nodes) (deps : List ℕ) → (all_completed m deps ≡ true) ↔ AllCompleted m deps
unfolding all_completed
all_completed_iff m [] = (λ _ x i. absurd (cc), λ _. refl)
all_completed_iff m (dep ∷ deps) =
    all_step m dep deps (find_node m dep) refl (all_completed_iff m deps)

select-In : (p : ℕ → TaskNode → Bool) (m : Nodes) (x : ℕ) → In x (select p m) → In x (ids m)
select-In p [] x i = i
select-In p ((k, n) ∷ m) x i = ground (arith, select-In p m x)

not-In : (l : List ℕ) (k x : ℕ) → mem k l ≡ false → In x l → k ≢ x
not-In l k x a i e = absurd (let h : mem k l ≡ mem x l = ap (λ (y : ℕ). mem y l) e in cc)

from_select :
    (p : ℕ → TaskNode → Bool) (k : ℕ) (n : TaskNode) (l : List ℕ) (x : ℕ)
    → In x (if p k n then k ∷ l else l)
    → ((x ≡ k) × (p k n ≡ true)) ⊎ In x l
from_select p k n l x i = ground arith

first :
    (b : Bool) (o : Option TaskNode) (n : TaskNode) → b ≡ true → (if b then some n else o) ≡ some n
first b o n h = ground arith

other :
    (b : Bool) (o : Option TaskNode) (n : TaskNode) → (b ≡ true → ⊥) → (if b then some n else o) ≡ o
other b o n h = ground arith

select_iff :
    (p : ℕ → TaskNode → Bool) (m : Nodes) (x : ℕ)
    → Distinct m
    → In x (select p m) ↔ ((n : TaskNode) × (find_node m x ≡ some n) × (p x n ≡ true))
select_iff p [] x v = (λ i. absurd (cc), λ (n, e, q). absurd (cc))
select_iff p ((k, n) ∷ m) x (a, v) =
    let (f, g) = select_iff p m x v in
    let sel = select p m in
    let no : In x sel → k ≢ x = λ i e. not-In (ids m) k x a (select-In p m x i) e in
    (
      λ i. elim (from_select p k n sel x i) [
        | inl (q, e) ↦ (
          n,
          first (k == x) (find_node m x) n ((==_iff k x).1 (sym q)),
          ap (λ (y : ℕ). p y n) q ∙ e,
        )
        | inr j ↦
            let (l, e, q) = f j in
            (l, other (k == x) (find_node m x) n (λ h. no j ((==_iff k x).0 h)) ∙ e, q)
      ],
      λ (l, e, q). elim (Bool-cases (k == x)) [
        | inl h ↦
            let z = some-injective n l (sym (first (k == x) (find_node m x) n h) ∙ e) in
            let w = (==_iff k x).0 h in
            let t : p k n ≡ true = ap (λ (y : ℕ). p y n) w ∙ (ap (λ (y : TaskNode). p x y) z ∙ q) in
            ground arith
        | inr h ↦
            let j = g (l, sym (other (k == x) (find_node m x) n (λ y. absurd (cc))) ∙ e, q) in
            ground arith
      ],
    )

is_task_ready-found :
    (d : DependencyDag) (x : ℕ) (n : TaskNode)
    → find_node d.nodes x ≡ some n
    → is_task_ready d x ≡ all_completed d.nodes n.dependencies
unfolding is_task_ready
is_task_ready-found d x n e =
    ap
      (λ (o : Option TaskNode). elim o [
        | none ↦ false
        | some k ↦ all_completed d.nodes k.dependencies
      ])
      e

-- The task is there and each dependency is a task that is completed.
abbrev pub IsReady : DependencyDag → ℕ → Type 0
IsReady d x = (n : TaskNode) × (find_node d.nodes x ≡ some n) × AllCompleted d.nodes n.dependencies

IsReady-at :
    (d : DependencyDag) (x : ℕ) (o : Option TaskNode)
    → find_node d.nodes x ≡ o
    → (is_task_ready d x ≡ true) ↔ IsReady d x
IsReady-at d x none e = (
  λ h. absurd (
      let q : is_task_ready d x ≡ false = unfold is_task_ready in rw (e, is_task_ready) refl in cc),
  λ (n, q, a). absurd (cc),
)
IsReady-at d x (some n) e =
    let r = is_task_ready-found d x n e in
    let (f, g) = all_completed_iff d.nodes n.dependencies in
    (
      λ h. (n, e, f (sym r ∙ h)),
      λ (l, q, a).
          let z = ap (λ (t : TaskNode). t.dependencies) (some-injective l n (sym q ∙ e)) in
          r ∙ g (subst (λ x. AllCompleted d.nodes x) z a),
    )

pub is_task_ready_iff : (d : DependencyDag) (x : ℕ) → (is_task_ready d x ≡ true) ↔ IsReady d x
is_task_ready_iff d x = IsReady-at d x (find_node d.nodes x) refl

-- Where no id has two entries, the ready tasks are the pending ones of which every dependency is a task
-- that is completed.
pub get_ready_tasks_iff :
    (d : DependencyDag) (x : ℕ)
    → Distinct d.nodes
    → In x (get_ready_tasks d) ↔ (
        (n : TaskNode) × (find_node d.nodes x ≡ some n)
        × (n.status ≡ pending)
        × AllCompleted d.nodes n.dependencies)
unfolding get_ready_tasks
get_ready_tasks_iff d x v =
    let (f, g) = select_iff (λ k n. is_pending n.status && is_task_ready d k) d.nodes x v in
    (
      λ i.
          let (n, e, q) = f i in
          let r = is_task_ready-found d x n e in
          (
            n,
            e,
            (is_pending_iff n.status).0 (ground arith),
            (all_completed_iff d.nodes n.dependencies).0 (ground arith),
          ),
      λ (n, e, s, a).
          let r = is_task_ready-found d x n e in
          let p = (is_pending_iff n.status).1 s in
          let c = (all_completed_iff d.nodes n.dependencies).1 a in g (n, e, ground arith),
    )
