-- ===== src/Dag/Search.antt =====
-- harness/src/harness_dag.cpp: `HasCycle` and `DFSVisit`. A set is a list that is read by membership,
-- in some order of iteration, and the depth of the recursion is bounded by fuel.
use litenyx.Common.{
  ℕ, zero, suc, Bool, true, false, List, [], ◌∷◌, ◌++◌, ◌==◌, ◌||◌, if◌then◌else◌, length,
}

abbrev pub mem : ℕ → List ℕ → Bool
mem x [] = false
mem x (y ∷ l) = (x == y) || mem x l

-- Every occurrence, since a set has one.
abbrev pub erase : ℕ → List ℕ → List ℕ
erase x [] = []
erase x (y ∷ l) = let rest = erase x l in if x == y then rest else y ∷ rest

-- A task and its dependencies.
abbrev pub Adjacency : Type 0
Adjacency = List (ℕ × List ℕ)

abbrev pub adj : Adjacency → ℕ → List ℕ
adj [] n = []
adj ((k, ns) ∷ g) n = if k == n then ns else adj g n

-- Every task that the map names, as a key or as a dependency.
abbrev pub named : Adjacency → List ℕ
named [] = []
named ((k, ns) ∷ g) = k ∷ (ns ++ named g)

-- What `DFSVisit` returns: true, or false with the two sets as it leaves them.
pub data Visit : Type 0 where
  cycle_found : Visit
  clear : (visited stack : List ℕ) → Visit
  out_of_fuel : Visit

abbrev pub and_then : Visit → (List ℕ → List ℕ → Visit) → Visit
and_then cycle_found k = cycle_found
and_then (clear visited stack) k = k visited stack
and_then out_of_fuel k = out_of_fuel

-- The loop over the neighbours, with the recursive call as an argument.
unfoldable pub neighbors : (ℕ → List ℕ → List ℕ → Visit) → List ℕ → List ℕ → List ℕ → Visit
neighbors visit [] visited stack = clear visited stack
neighbors visit (n ∷ ns) visited stack = elim (mem n visited) [
  | true ↦ elim (mem n stack) [ true ↦ cycle_found | false ↦ neighbors visit ns visited stack ]
  | false ↦ and_then (visit n visited stack) (neighbors visit ns)
]

unfoldable pub dfs_visit : Adjacency → ℕ → ℕ → List ℕ → List ℕ → Visit
dfs_visit g zero n visited stack = out_of_fuel
dfs_visit g (suc fuel) n visited stack =
    and_then (neighbors (dfs_visit g fuel) (adj g n) (n ∷ visited) (n ∷ stack))
      (λ v s. clear v (erase n s))

-- The loop of `HasCycle` over the tasks.
unfoldable pub roots : Adjacency → ℕ → List ℕ → List ℕ → List ℕ → Visit
roots g fuel [] visited stack = clear visited stack
roots g fuel (n ∷ ns) visited stack = elim (mem n visited) [
  | true ↦ roots g fuel ns visited stack
  | false ↦ and_then (dfs_visit g fuel n visited stack) (roots g fuel ns)
]

abbrev pub search_fuel : Adjacency → List ℕ → ℕ
search_fuel g ids = suc (length (ids ++ named g))

unfoldable pub search : Adjacency → List ℕ → Visit
search g ids = roots g (search_fuel g ids) ids [] []

-- A return without fuel counts as no cycle.
abbrev pub is_cycle_found : Visit → Bool
is_cycle_found cycle_found = true
is_cycle_found (clear v s) = false
is_cycle_found out_of_fuel = false

unfoldable pub has_cycle : Adjacency → List ℕ → Bool
has_cycle g ids = is_cycle_found (search g ids)
