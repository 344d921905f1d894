-- ===== src/Dag.antt =====
-- harness/include/harness_dag.h and src/harness_dag.cpp: the dependency graph of the qualification
-- harness. A task's id is a number that stands for its text, 0 for the empty one. A map is the list of its
-- entries in the order in which the code iterates over it.
pub mod Search
pub mod Store
pub mod Reach
pub mod Order
pub mod Fuel
pub mod Correct
pub mod Edges
pub mod Add
pub mod Status
pub mod Failure
pub mod Grow
mod Tests
use Prim.Native.String.{String}
use litenyx.Common.{
  ℕ, zero, suc, ◌+◌, Bool, true, false, not, ◌&&◌, ◌||◌, Option, none, some, List, [], ◌∷◌, ◌++◌,
  map, ◌==◌, if◌then◌else◌, length,
}
use litenyx.Dag.Search.{mem, erase, Adjacency, adj, has_cycle}
pub use Store.{
  TaskStatus, pending, ready, running, completed, failed, blocked, FailureReason, given,
  dependency_failed, TaskNode, Nodes, DependencyDag, ids, find_node, change_node, put, insert_into,
  erase_from, with_status,
}

-- The loop of `AddNode` over the dependencies.
unfoldable pub add_dependencies : Adjacency → Adjacency → ℕ → List ℕ → Adjacency × Adjacency
add_dependencies g r id [] = (g, r)
add_dependencies g r id (dep ∷ deps) =
    add_dependencies (insert_into g id dep) (insert_into r dep id) id deps

unfoldable pub add_node : DependencyDag → TaskNode → Bool × DependencyDag
add_node d n =
    let gr =
      add_dependencies (put d.adjacency n.task_id []) (put d.reverse_adjacency n.task_id [])
        n.task_id n.dependencies in
    let added : DependencyDag = record {
      nodes = (n.task_id, with_status pending n.failure_reason n) ∷ d.nodes;
      adjacency = gr.0;
      reverse_adjacency = gr.1;
    } in
    if n.task_id == 0
    then (false, d)
    else if mem n.task_id (ids d.nodes)
    then (false, d)
    else (true, added)

abbrev pub add_dependency : ℕ → TaskNode → TaskNode
add_dependency to n = record {
  task_id = n.task_id;
  dependencies = n.dependencies ++ (to ∷ []);
  status = n.status;
  failure_reason = n.failure_reason;
  evidence_hash = n.evidence_hash;
  output_hashes = n.output_hashes;
}

unfoldable pub add_edge : DependencyDag → ℕ → ℕ → Bool × DependencyDag
add_edge d from to =
    let g = insert_into d.adjacency from to in
    let r = insert_into d.reverse_adjacency to from in
    if not (mem from (ids d.nodes))
    then (false, d)
    else if not (mem to (ids d.nodes))
    then (false, d)
    else if mem to (adj d.adjacency from)
    then (true, d)
    else if has_cycle g (ids d.nodes)
    then (
      false,
      record {
        nodes = d.nodes;
        adjacency = erase_from g from to;
        reverse_adjacency = erase_from r to from;
      },
    )
    else (
      true,
      record {
        nodes = change_node d.nodes from (add_dependency to);
        adjacency = g;
        reverse_adjacency = r;
      },
    )

abbrev pub is_acyclic : DependencyDag → Bool
is_acyclic d = not (has_cycle d.adjacency (ids d.nodes))

abbrev pub is_pending : TaskStatus → Bool
is_pending pending = true
is_pending _ = false

abbrev pub is_completed : TaskStatus → Bool
is_completed completed = true
is_completed _ = false

abbrev pub is_failed : TaskStatus → Bool
is_failed failed = true
is_failed _ = false

-- The loop of `IsTaskReady` over the dependencies.
unfoldable pub all_completed : Nodes → List ℕ → Bool
all_completed m [] = true
all_completed m (dep ∷ deps) = elim (find_node m dep) [
  | none ↦ false
  | some n ↦ is_completed n.status && all_completed m deps
]

unfoldable pub is_task_ready : DependencyDag → ℕ → Bool
is_task_ready d id = elim (find_node d.nodes id) [
  | none ↦ false
  | some n ↦ all_completed d.nodes n.dependencies
]

-- The ids whose entries pass a test, in the order of iteration.
abbrev pub select : (ℕ → TaskNode → Bool) → Nodes → List ℕ
select p [] = []
select p ((k, n) ∷ m) = let rest = select p m in if p k n then k ∷ rest else rest

unfoldable pub get_ready_tasks : DependencyDag → List ℕ
get_ready_tasks d = select (λ k n. is_pending n.status && is_task_ready d k) d.nodes

pub get_pending_tasks : DependencyDag → List ℕ
get_pending_tasks d = select (λ k n. is_pending n.status) d.nodes

pub get_completed_tasks : DependencyDag → List ℕ
get_completed_tasks d = select (λ k n. is_completed n.status) d.nodes

pub get_failed_tasks : DependencyDag → List ℕ
get_failed_tasks d = select (λ k n. is_failed n.status) d.nodes

-- What `operator[]` makes of a missing entry, once its status and reason are set.
abbrev pub blank : TaskStatus → FailureReason → TaskNode
blank s r = record {
  task_id = 0;
  dependencies = [];
  status = s;
  failure_reason = r;
  evidence_hash = "";
  output_hashes = [];
}

abbrev pub set_status : Nodes → ℕ → TaskStatus → FailureReason → Nodes
set_status m id s r =
    if mem id (ids m) then change_node m id (with_status s r) else (id, blank s r) ∷ m

-- The loop over the dependents of a failed task.
unfoldable pub block_dependents : Nodes → ℕ → List ℕ → Nodes
block_dependents m id [] = m
block_dependents m id (x ∷ xs) =
    block_dependents (set_status m x blocked (dependency_failed id)) id xs

unfoldable pub update_task_status :
    DependencyDag → ℕ → TaskStatus → FailureReason → Bool × DependencyDag
update_task_status d id s r =
    let m = set_status d.nodes id s r in
    let blocked_m = if is_failed s then block_dependents m id (adj d.reverse_adjacency id) else m in
    if mem id (ids d.nodes)
    then (
      true,
      record {
        nodes = blocked_m;
        adjacency = d.adjacency;
        reverse_adjacency = d.reverse_adjacency;
      },
    )
    else (false, d)

pub set_task_evidence : DependencyDag → ℕ → String → List String → Bool × DependencyDag
set_task_evidence d id e os =
    if mem id (ids d.nodes)
    then (
      true,
      record {
        nodes = change_node d.nodes id (λ n. record {
          task_id = n.task_id;
          dependencies = n.dependencies;
          status = n.status;
          failure_reason = n.failure_reason;
          evidence_hash = e;
          output_hashes = os;
        });
        adjacency = d.adjacency;
        reverse_adjacency = d.reverse_adjacency;
      },
    )
    else (false, d)

pub all_tasks_completed : Nodes → Bool
all_tasks_completed [] = true
all_tasks_completed ((k, n) ∷ m) = is_completed n.status && all_tasks_completed m

pub any_task_failed : Nodes → Bool
any_task_failed [] = false
any_task_failed ((k, n) ∷ m) = is_failed n.status || any_task_failed m

abbrev pub all_in : List ℕ → List ℕ → Bool
all_in [] known = true
all_in (x ∷ xs) known = mem x known && all_in xs known

-- The second and the third loop of `Validate`.
unfoldable pub dependencies_exist : List ℕ → Nodes → Bool
dependencies_exist known [] = true
dependencies_exist known ((k, n) ∷ m) = all_in n.dependencies known && dependencies_exist known m

unfoldable pub validate : DependencyDag → Bool
validate d =
    not (has_cycle d.adjacency (ids d.nodes))
    && (dependencies_exist (ids d.nodes) d.nodes && not (mem 0 (ids d.nodes)))

pub record Statistics : Type 0 where
  pub total_tasks : ℕ
  pub completed_tasks : ℕ
  pub failed_tasks : ℕ
  pub pending_tasks : ℕ
  pub ready_tasks : ℕ
  pub total_edges : ℕ
  pub max_depth : ℕ

-- One round of the loop of `GetStatistics`.
abbrev count_node : DependencyDag → ℕ → TaskNode → Statistics → Statistics
count_node d k n s = record {
  total_tasks = s.total_tasks;
  completed_tasks = s.completed_tasks + (if is_completed n.status then 1 else 0);
  failed_tasks = s.failed_tasks + (if is_failed n.status then 1 else 0);
  pending_tasks = s.pending_tasks + (if is_pending n.status then 1 else 0);
  ready_tasks = s.ready_tasks + (if is_pending n.status && is_task_ready d k then 1 else 0);
  total_edges = s.total_edges + length n.dependencies;
  max_depth = s.max_depth;
}

unfoldable pub count_nodes : DependencyDag → Nodes → Statistics → Statistics
count_nodes d [] s = s
count_nodes d ((k, n) ∷ m) s = count_nodes d m (count_node d k n s)

unfoldable pub get_statistics : DependencyDag → Statistics
get_statistics d = count_nodes d d.nodes (record {
  total_tasks = length d.nodes;
  completed_tasks = 0;
  failed_tasks = 0;
  pending_tasks = 0;
  ready_tasks = 0;
  total_edges = 0;
  max_depth = 0;
})
