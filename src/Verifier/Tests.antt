-- ===== src/Verifier/Tests.antt =====
-- A carrier on one tree, with stand-ins for the hashes, and the theorems at concrete inputs.
use litenyx.Common.{ℕ, ◌+◌, ◌*◌, ◌≤◌, ◌^◌, ◌≡◌, ◌↔◌, refl, true, List, [], ◌∷◌, arith}
use litenyx.Carrier.{GalacticWorkHeader}
use litenyx.Verifier.{
  work_hash_le_target, compute_leaf_hash, commitment_valid_g, passed, commitment_valid,
}
use litenyx.Verifier.Target.{be_number, work_hash_le_target_iff}
use litenyx.Verifier.Inclusion.{
  Tree, leaf, fork, tree_root, leaf_at, siblings, commitment_valid_g_complete,
}
use litenyx.Verifier.Verdict.{commitment_valid_g_malleable}

-- Stand-ins: the last byte counts.
abbrev sum_bytes : List ℕ → ℕ
sum_bytes [] = 0
sum_bytes (b ∷ bytes) = b + 2 * sum_bytes bytes

abbrev toy_sha : List ℕ → List ℕ
toy_sha bytes = sum_bytes bytes ∷ []

abbrev toy_scrypt : List ℕ → List ℕ
toy_scrypt bytes = 1 ∷ 200 ∷ []

abbrev quad : Tree 2
quad = fork (fork (leaf (1 ∷ [])) (leaf (2 ∷ []))) (fork (leaf (3 ∷ [])) (leaf (4 ∷ [])))

abbrev carrier : GalacticWorkHeader
carrier = record {
  version = 1;
  commitment_root = compute_leaf_hash toy_sha (1 ∷ []);
  protocol_domain = 7;
  network_domain = 9;
  nonce = 0;
}

work_hash_le_target_iff_example :
    (work_hash_le_target (1 ∷ 200 ∷ []) (2 ∷ 0 ∷ []) ≡ true)
    ↔ (be_number (1 ∷ 200 ∷ []) ≤ be_number (2 ∷ 0 ∷ []))
work_hash_le_target_iff_example =
    work_hash_le_target_iff (1 ∷ 200 ∷ []) (2 ∷ 0 ∷ []) refl (omega arith) (omega arith)

commitment_valid_g_complete_example :
    commitment_valid_g toy_sha
      (tree_root toy_sha quad)
      (leaf_at toy_sha quad 2)
      (record { leaf_index = 2; sibling_hashes = siblings toy_sha quad 2 })
      2
    ≡ passed commitment_valid
commitment_valid_g_complete_example = commitment_valid_g_complete toy_sha quad 2

commitment_valid_g_malleable_example :
    commitment_valid_g toy_sha
      (5 ∷ [])
      (1 ∷ [])
      (record { leaf_index = 1 + 2 ^ 1; sibling_hashes = (3 ∷ []) ∷ [] })
      1
    ≡ commitment_valid_g toy_sha
        (5 ∷ [])
        (1 ∷ [])
        (record { leaf_index = 1; sibling_hashes = (3 ∷ []) ∷ [] })
        1
commitment_valid_g_malleable_example =
    commitment_valid_g_malleable toy_sha (5 ∷ []) (1 ∷ []) 1 1 ((3 ∷ []) ∷ []) refl
