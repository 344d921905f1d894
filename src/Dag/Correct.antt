-- ===== src/Dag/Correct.antt =====
-- `HasCycle` against the cycles of the graph.
use litenyx.Common.{ℕ, ◌≡◌, ◌≢◌, ◌↔◌, refl, true, List}
use litenyx.Dag.Search.{
  Adjacency, adj, Visit, cycle_found, clear, out_of_fuel, search, is_cycle_found, has_cycle,
}
use litenyx.Dag.Reach.{In, Reach, edge, step, Cyclic, has_cycle-Cyclic}
use litenyx.Dag.Order.{Ordered-acyclic, search-Ordered}
use litenyx.Dag.Fuel.{search-ends}

-- Only tasks have dependencies.
abbrev pub IsClosed : Adjacency → List ℕ → Type 0
IsClosed g ids = (n m : ℕ) → In m (adj g n) → In n ids

starts : (g : Adjacency) (ids : List ℕ) {x y : ℕ} → IsClosed g ids → Reach g x y → In x ids
starts g ids {x} c (edge {y = y} e) = c x y e
starts g ids {x} c (step {y = y} e r) = c x y e

answer :
    (g : Adjacency) (ids : List ℕ) (r : Visit)
    → search g ids ≡ r
    → IsClosed g ids
    → Cyclic g
    → is_cycle_found r ≡ true
answer g ids cycle_found h c k = refl
answer g ids out_of_fuel h c k = absurd (search-ends g ids h)
answer g ids (clear v t) h c (x, r) =
    let (l, o, i) = search-Ordered g ids v t h in
    absurd (Ordered-acyclic g l x o (i x (starts g ids c r)) r)

-- Where only tasks have dependencies, the search answers yes exactly if some task leads back to itself,
-- and it always answers before the fuel that the number of named tasks gives is spent.
pub has_cycle_iff :
    (g : Adjacency) (ids : List ℕ)
    → IsClosed g ids
    → ((has_cycle g ids ≡ true) ↔ Cyclic g) × (search g ids ≢ out_of_fuel)
has_cycle_iff g ids c = (
  (has_cycle-Cyclic g ids, λ k. unfold has_cycle in answer g ids (search g ids) refl c k),
  search-ends g ids,
)
