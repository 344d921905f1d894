-- ===== src/Authority/History.antt =====
-- `LitenyxCalculateExpectedTopology`, by the order in which boundaries are added.
use mathlib.Core.Logic.{∥∥₁_elim}
use mathlib.Core.List.{Perm, Permᴰ, Nodup, Nodup-cons, mem-cons}
use mathlib.Core.List.Perm
use mathlib.Core.Logic.Or
use mathlib.Core.Path.{subst, ap₂}
use native.Mathlib.Decide.{dec_lt}
use litenyx.Common.{lt→ltb, ℕ, ◌≤◌, ◌<◌, ◌≡◌, ◌≢◌, refl, sym, ap, ◌∙◌, List, [], ◌∷◌, map, arith}
use litenyx.Common.Int.{ℤ}
use litenyx.Topology.Apply.{InRange}
use litenyx.Authority.{
  TopologyState, CommittedHistory, insert_boundary, sort_boundaries, fold_boundaries,
  expected_topology, derive_topology_at_boundary,
}
use litenyx.Authority.Boundary.{derive-Boundary}

abbrev pub heights : CommittedHistory → List ℕ
heights = map λ kv. kv.0

insert_past :
    (h k : ℕ) (xs zs : List ℤ) (l : CommittedHistory)
    → k < h
    → insert_boundary (h, xs) ((k, zs) ∷ l) ≡ (k, zs) ∷ insert_boundary (h, xs) l
unfolding insert_boundary
insert_past h k xs zs l lt = rw (lt→ltb k h lt)

insert_before :
    (h k : ℕ) (xs zs : List ℤ) (l : CommittedHistory)
    → h ≤ k
    → insert_boundary (h, xs) ((k, zs) ∷ l) ≡ (h, xs) ∷ (k, zs) ∷ l
unfolding insert_boundary
insert_before h k xs zs l le = ground arith

-- Two boundaries of different heights are inserted with the same result in either order.
insert_sorted_pair :
    (a b : ℕ) (xs ys : List ℤ) (l : CommittedHistory)
    → a < b
    → insert_boundary (a, xs) (insert_boundary (b, ys) l)
      ≡ insert_boundary (b, ys) (insert_boundary (a, xs) l)
insert_sorted_pair a b xs ys [] lt = unfold insert_boundary in ground arith
insert_sorted_pair a b xs ys ((k, zs) ∷ l) lt =
    go (insert_sorted_pair a b xs ys l lt) (dec_lt k b) (dec_lt k a)
  where
    go :
        insert_boundary (a, xs) (insert_boundary (b, ys) l)
          ≡ insert_boundary (b, ys) (insert_boundary (a, xs) l)
        → Dec (k < b)
        → Dec (k < a)
        → insert_boundary (a, xs) (insert_boundary (b, ys) ((k, zs) ∷ l))
          ≡ insert_boundary (b, ys) (insert_boundary (a, xs) ((k, zs) ∷ l))
    go ih (yes p) (yes q) =
        rw
          (
            insert_past b k ys zs l p,
            insert_past a k xs zs l q,
            insert_past a k xs zs (insert_boundary (b, ys) l) q,
            insert_past b k ys zs (insert_boundary (a, xs) l) p,
          )
          (ap (◌∷◌ (k, zs)) ih)
    go ih (yes p) (no q) =
        rw
          (
            insert_past b k ys zs l p,
            insert_before a k xs zs l (omega arith),
            insert_before a k xs zs (insert_boundary (b, ys) l) (omega arith),
            insert_past b a ys xs ((k, zs) ∷ l) lt,
            insert_past b k ys zs l p,
          )
          refl
    go ih (no p) _ =
        rw
          (
            insert_before b k ys zs l (omega arith),
            insert_before a k xs zs l (omega arith),
            insert_before a b xs ys ((k, zs) ∷ l) (omega arith),
            insert_past b a ys xs ((k, zs) ∷ l) lt,
            insert_before b k ys zs l (omega arith),
          )
          refl

insert_comm :
    (a b : ℕ) (xs ys : List ℤ) (l : CommittedHistory)
    → a ≢ b
    → insert_boundary (a, xs) (insert_boundary (b, ys) l)
      ≡ insert_boundary (b, ys) (insert_boundary (a, xs) l)
insert_comm a b xs ys l ne = elim (dec_lt a b) [
  | yes p ↦ insert_sorted_pair a b xs ys l p
  | no p ↦ sym (insert_sorted_pair b a ys xs l (omega arith))
]

sort-Permᴰ :
    {xs ys : CommittedHistory}
    → Permᴰ xs ys
    → Nodup (heights xs)
    → sort_boundaries xs ≡ sort_boundaries ys
unfolding sort_boundaries
sort-Permᴰ Permᴰ.nil d = refl
sort-Permᴰ (Permᴰ.cons e p) d = cc (e, sort-Permᴰ p (Nodup-cons.0 d).1)
sort-Permᴰ (Permᴰ.swap {a = (a, xs)} {b = (b, ys)} {l = l} e f) d =
    subst
      (λ x.
        insert_boundary (a, xs) (insert_boundary (b, ys) (sort_boundaries l)) ≡ sort_boundaries x)
      (ap₂ (λ x y. x ∷ y ∷ l) f e)
      (insert_comm a b xs ys (sort_boundaries l) (λ q. (Nodup-cons.0 d).0 (mem-cons.1 (Or.inl q))))
sort-Permᴰ (Permᴰ.trans p q) d = sort-Permᴰ p d ∙ sort-Permᴰ q (Perm.nodup (Perm.map _ ∣ p ∣₁) d)

TopologyState-set : IsSet TopologyState
TopologyState-set = hlevel

-- The state at a height does not depend on the order in which the boundaries of a history were
-- added, where no height is added twice.
pub expected_topology-Perm :
    (s : TopologyState) (xs ys : CommittedHistory) (tip : ℕ)
    → Perm xs ys
    → Nodup (heights xs)
    → expected_topology s xs tip ≡ expected_topology s ys tip
unfolding expected_topology
expected_topology-Perm s xs ys tip p d = ∥∥₁_elim p (TopologyState-set _ _) λ q. rw (sort-Permᴰ q d)

fold-InRange :
    (tip : ℕ) (l : CommittedHistory) (s : TopologyState)
    → InRange s.n_n
    → InRange (fold_boundaries tip l s).n_n
unfolding fold_boundaries
fold-InRange tip [] s h = h
fold-InRange tip ((k, mcs) ∷ l) s h = ground (
  arith,
  fold-InRange tip l (derive_topology_at_boundary s k mcs) (derive-Boundary s k mcs h).in_range,
)

-- Whatever demands a history holds, the count at the tip is between 2 and 8.
pub expected_topology-InRange :
    (s : TopologyState) (l : CommittedHistory) (tip : ℕ)
    → InRange s.n_n
    → InRange (expected_topology s l tip).n_n
unfolding expected_topology
expected_topology-InRange s l tip h = fold-InRange tip (sort_boundaries l) s h
