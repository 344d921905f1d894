-- ===== src/Dag/Tests.antt =====
-- A small graph, runs of its operations, and the theorems at concrete inputs.
use litenyx.Common.{ℕ, ◌≡◌, ◌≢◌, ◌↔◌, refl, true, false, some, List, [], ◌∷◌, arith}
use litenyx.Dag.Search.{neighbors, dfs_visit, roots, search, has_cycle, out_of_fuel}
use litenyx.Dag.Reach.{In, Cyclic}
use litenyx.Dag.Correct.{IsClosed, has_cycle_iff}
use litenyx.Dag.Add.{IsDag, contradict, add_edge_lem}
use litenyx.Dag.Status.{Distinct, AllCompleted, get_ready_tasks_iff}
use litenyx.Dag.Failure.{update_task_status_lem}
use litenyx.Dag.Grow.{DependenciesExist, add_node_lem, validate_iff}
use litenyx.Dag.{
  TaskStatus, pending, completed, failed, given, TaskNode, DependencyDag, ids, find_node, add_node,
  add_edge, update_task_status, get_ready_tasks, is_task_ready, all_completed, validate,
}

abbrev task : ℕ → List ℕ → TaskStatus → TaskNode
task id deps s = record {
  task_id = id;
  dependencies = deps;
  status = s;
  failure_reason = given "";
  evidence_hash = "";
  output_hashes = [];
}

-- 3 depends on 2, and 2 on 1.
abbrev chain : DependencyDag
chain = record {
  nodes =
      (1, task 1 [] completed) ∷ (2, task 2 (1 ∷ []) pending) ∷ (3, task 3 (2 ∷ []) pending) ∷ [];
  adjacency = (1, []) ∷ (2, 1 ∷ []) ∷ (3, 2 ∷ []) ∷ [];
  reverse_adjacency = (1, 2 ∷ []) ∷ (2, 3 ∷ []) ∷ (3, []) ∷ [];
}

no_cycle : has_cycle chain.adjacency (ids chain.nodes) ≡ false
unfolding has_cycle search roots dfs_visit neighbors
no_cycle = refl

refused_edge : (add_edge chain 1 3).0 ≡ false
unfolding add_edge has_cycle search roots dfs_visit neighbors
refused_edge = refl

second_is_ready : get_ready_tasks chain ≡ 2 ∷ []
unfolding get_ready_tasks is_task_ready all_completed
second_is_ready = refl

chain-IsClosed : IsClosed chain.adjacency (ids chain.nodes)
chain-IsClosed n m i = ground arith

chain-IsDag : IsDag chain
chain-IsDag = (
  λ k. contradict ((has_cycle_iff chain.adjacency (ids chain.nodes) chain-IsClosed).0.1 k) no_cycle,
  chain-IsClosed,
)

has_cycle_iff_example :
    ((has_cycle chain.adjacency (ids chain.nodes) ≡ true) ↔ Cyclic chain.adjacency)
    × (search chain.adjacency (ids chain.nodes) ≢ out_of_fuel)
has_cycle_iff_example = has_cycle_iff chain.adjacency (ids chain.nodes) chain-IsClosed

add_edge_lem_example : IsDag (add_edge chain 3 1).1
add_edge_lem_example = (add_edge_lem chain 3 1 chain-IsDag).0

chain-Distinct : Distinct chain.nodes
chain-Distinct = (refl, (refl, (refl, tt)))

get_ready_tasks_iff_example : In 2 (get_ready_tasks chain) ↔ (
    (n : TaskNode) × (find_node chain.nodes 2 ≡ some n)
    × (n.status ≡ pending)
    × AllCompleted chain.nodes n.dependencies)
get_ready_tasks_iff_example = get_ready_tasks_iff chain 2 chain-Distinct

-- Task 3 depends on task 1 through task 2, and its entry stays.
update_task_status_lem_example :
    find_node (update_task_status chain 1 failed (given "")).1.nodes 3 ≡ find_node chain.nodes 3
update_task_status_lem_example =
    (update_task_status_lem chain 1 (given "") 3 refl).2 refl (omega arith)

add_node_lem_example : Distinct (add_node chain (task 4 (9 ∷ []) pending)).1.nodes
add_node_lem_example =
    (add_node_lem chain (task 4 (9 ∷ []) pending) chain-Distinct chain-IsClosed).3

validate_iff_example : (validate chain ≡ true) ↔ (
    (Cyclic chain.adjacency → ⊥)
    × DependenciesExist chain.nodes chain.nodes
    × (In 0 (ids chain.nodes) → ⊥))
validate_iff_example = validate_iff chain chain-IsClosed
