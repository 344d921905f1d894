-- ===== src/Verifier/Inclusion.antt =====
-- Inclusion proofs against the tree of hashes that they speak of.
use litenyx.Common.{
  ℕ, suc, ◌+◌, ◌≡◌, refl, ap, ◌∙◌, Bool-cases, inl, inr, List, [], ◌∷◌, ◌++◌, length, length-append,
  if◌then◌else◌, arith, ==_iff,
}
use litenyx.Commitment.{same_bytes_iff}
use litenyx.Verifier.{
  bit, compute_leaf_hash, compute_node_hash, combine, climb, commitment_valid_g, passed,
  commitment_valid,
}

-- A tree of blocks in which all leaves are `d` levels down.
pub data Tree : ℕ → Type 0 where
  leaf : (block_hash : List ℕ) → Tree 0
  fork : {d : ℕ} → Tree d → Tree d → Tree (suc d)

module _ (sha256 : List ℕ → List ℕ) where
  pub tree_root : {d : ℕ} → Tree d → List ℕ
  tree_root (leaf b) = compute_leaf_hash sha256 b
  tree_root (fork l r) = compute_node_hash sha256 (tree_root l) (tree_root r)

  -- The block at an index, whose highest bit chooses below the root.
  pub leaf_at : {d : ℕ} → Tree d → ℕ → List ℕ
  leaf_at (leaf b) i = b
  leaf_at {d = suc d} (fork l r) i =
      let a = leaf_at l i in let b = leaf_at r i in if bit d i then b else a

  pub siblings : {d : ℕ} → Tree d → ℕ → List (List ℕ)
  siblings (leaf b) i = []
  siblings {d = suc d} (fork l r) i =
      let a = siblings l i ++ tree_root r ∷ [] in
      let b = siblings r i ++ tree_root l ∷ [] in if bit d i then b else a

  climb-append :
      (i j : ℕ) (z : List ℕ) (ss : List (List ℕ)) (s : List ℕ)
      → climb sha256 i j z (ss ++ s ∷ [])
        ≡ combine sha256 i (j + length ss) (climb sha256 i j z ss) s
  unfolding climb
  climb-append i j z [] s = ap (λ k. combine sha256 i k z s) (omega arith)
  climb-append i j z (x ∷ ss) s =
      let c = combine sha256 i j z x in
      climb-append i (j + 1) c ss s
      ∙ ap (λ k. combine sha256 i k (climb sha256 i (j + 1) c ss) s) (omega arith)

  -- The siblings of a leaf climb to the root.
  climb-siblings :
      {d : ℕ} (t : Tree d) (i : ℕ)
      → (length (siblings t i) ≡ d)
        × (climb sha256 i 0 (compute_leaf_hash sha256 (leaf_at t i)) (siblings t i) ≡ tree_root t)
  unfolding siblings leaf_at tree_root climb
  climb-siblings (leaf b) i = (refl, refl)
  climb-siblings {d = suc d} (fork l r) i =
      let (nl, cl) = climb-siblings l i in
      let (nr, cr) = climb-siblings r i in
      elim (Bool-cases (bit d i)) [
        | inl e ↦
            let sib = siblings r i ++ tree_root l ∷ [] in
            let z = compute_leaf_hash sha256 (leaf_at r i) in
            let top : combine sha256 i d (tree_root r) (tree_root l) ≡ tree_root (fork l r) =
              unfold combine in rw e refl in
            rw e (
              omega (arith, length-append (siblings r i) (tree_root l ∷ [])),
              climb-append i 0 z (siblings r i) (tree_root l)
                  ∙ ap (λ k. combine sha256 i k (climb sha256 i 0 z (siblings r i)) (tree_root l))
                      {x = 0 + length (siblings r i)} (omega (arith, nr))
                  ∙ ap (λ y. combine sha256 i d y (tree_root l)) cr
                  ∙ top,
            )
        | inr e ↦
            let z = compute_leaf_hash sha256 (leaf_at l i) in
            let top : combine sha256 i d (tree_root l) (tree_root r) ≡ tree_root (fork l r) =
              unfold combine in rw e refl in
            rw e (
              omega (arith, length-append (siblings l i) (tree_root r ∷ [])),
              climb-append i 0 z (siblings l i) (tree_root r)
                  ∙ ap (λ k. combine sha256 i k (climb sha256 i 0 z (siblings l i)) (tree_root r))
                      {x = 0 + length (siblings l i)} (omega (arith, nl))
                  ∙ ap (λ y. combine sha256 i d y (tree_root r)) cl
                  ∙ top,
            )
      ]

-- For every block of a tree of depth `d`, at any index, the proof with its siblings is accepted against
-- the root of the tree.
pub commitment_valid_g_complete :
    (sha256 : List ℕ → List ℕ) {d : ℕ} (t : Tree d) (i : ℕ)
    → commitment_valid_g sha256
        (tree_root sha256 t)
        (leaf_at sha256 t i)
        (record { leaf_index = i; sibling_hashes = siblings sha256 t i })
        d
      ≡ passed commitment_valid
unfolding commitment_valid_g
commitment_valid_g_complete sha256 {d} t i =
    let (n, c) = climb-siblings sha256 t i in
    rw
      (n, c, (same_bytes_iff (tree_root sha256 t) (tree_root sha256 t)).1 refl, (==_iff d d).1 refl)
      refl
