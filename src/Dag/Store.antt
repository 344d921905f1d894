-- ===== src/Dag/Store.antt =====
-- harness/include/harness_dag.h: the tasks, the maps that keep them and their edges, and the changes of an entry.
use Prim.Native.String.{String}
use litenyx.Common.{ℕ, Option, none, some, List, [], ◌∷◌, ◌==◌, if◌then◌else◌}
use litenyx.Dag.Search.{mem, erase, Adjacency, adj}

pub data TaskStatus : Type 0 where
  pending ready running completed failed blocked : TaskStatus

-- A caller's text, or the text that names the failed dependency.
pub data FailureReason : Type 0 where
  given : String → FailureReason
  dependency_failed : (task_id : ℕ) → FailureReason

pub record TaskNode : Type 0 where
  pub task_id : ℕ
  pub dependencies : List ℕ
  pub status : TaskStatus
  pub failure_reason : FailureReason
  pub evidence_hash : String
  pub output_hashes : List String

abbrev pub Nodes : Type 0
Nodes = List (ℕ × TaskNode)

pub record DependencyDag : Type 0 where
  pub nodes : Nodes
  pub adjacency : Adjacency  -- task -> dependencies
  pub reverse_adjacency : Adjacency  -- task -> dependents

abbrev pub ids : Nodes → List ℕ
ids [] = []
ids ((k, n) ∷ m) = k ∷ ids m

abbrev pub find_node : Nodes → ℕ → Option TaskNode
find_node [] id = none
find_node ((k, n) ∷ m) id = if k == id then some n else find_node m id

-- The entry of an id, changed; no entry is added.
abbrev pub change_node : Nodes → ℕ → (TaskNode → TaskNode) → Nodes
change_node [] id f = []
change_node ((k, n) ∷ m) id f =
    let rest = change_node m id f in if k == id then (k, f n) ∷ m else (k, n) ∷ rest

-- `adjacency[id] = s`, and `adjacency[id]` changed, which makes the entry where there is none.
abbrev pub put : Adjacency → ℕ → List ℕ → Adjacency
put [] id s = (id, s) ∷ []
put ((k, ns) ∷ g) id s = let rest = put g id s in if k == id then (k, s) ∷ g else (k, ns) ∷ rest

abbrev pub insert_into : Adjacency → ℕ → ℕ → Adjacency
insert_into g id x = put g id (if mem x (adj g id) then adj g id else x ∷ adj g id)

abbrev pub erase_from : Adjacency → ℕ → ℕ → Adjacency
erase_from g id x = put g id (erase x (adj g id))

abbrev pub with_status : TaskStatus → FailureReason → TaskNode → TaskNode
with_status s r n = record {
  task_id = n.task_id;
  dependencies = n.dependencies;
  status = s;
  failure_reason = r;
  evidence_hash = n.evidence_hash;
  output_hashes = n.output_hashes;
}
