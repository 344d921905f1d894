-- ===== src/Commitment.antt =====
-- The commitments of litenyx/LITENYX_topology_authority.h and LITENYX_chainid_lifecycle.h: the double
-- SHA-256 of a derived state, and the verdict on the one that a block carries.
use litenyx.Common.{
  ℕ, ◌≡◌, ◌↔◌, refl, arith, Bool, true, false, ◌&&◌, List, [], ◌∷◌, ◌==◌, if◌then◌else◌,
}
use litenyx.Authority.{TopologyState, serialize_topology_state}
use litenyx.Authority.Activation.{TopoRegime, pre_derivation, soft_advisory, hard_authority}
use litenyx.Lifecycle.{LifecycleState, serialize_lifecycle_state}
use litenyx.Sha256.{double_sha256}

-- `TopologyStateHash`, which is also the expected commitment.
pub expected_topology_commitment : TopologyState → List ℕ
expected_topology_commitment s = double_sha256 (serialize_topology_state s)

pub expected_lifecycle_commitment : LifecycleState → List ℕ
expected_lifecycle_commitment l = double_sha256 (serialize_lifecycle_state l)

pub data CommitVerdict : Type 0 where
  valid invalid advisory_mismatch : CommitVerdict

-- The comparison of two `uint256`.
abbrev pub same_bytes : List ℕ → List ℕ → Bool
same_bytes [] [] = true
same_bytes [] (y ∷ ys) = false
same_bytes (x ∷ xs) [] = false
same_bytes (x ∷ xs) (y ∷ ys) = x == y && same_bytes xs ys

pub same_bytes_iff : (xs ys : List ℕ) → (same_bytes xs ys ≡ true) ↔ (xs ≡ ys)
same_bytes_iff [] [] = (λ e. refl, λ e. refl)
same_bytes_iff [] (y ∷ ys) = (λ e. cc, λ e. cc)
same_bytes_iff (x ∷ xs) [] = (λ e. cc, λ e. cc)
same_bytes_iff (x ∷ xs) (y ∷ ys) =
    let (f, g) = same_bytes_iff xs ys in (λ e. grind arith, λ e. grind arith)

abbrev pub verdict_at : TopoRegime → Bool → Bool → CommitVerdict
verdict_at pre_derivation has_commitment matches = if has_commitment then invalid else valid
verdict_at soft_advisory has_commitment matches =
    if has_commitment then if matches then valid else advisory_mismatch else valid
verdict_at hard_authority has_commitment matches =
    if has_commitment then if matches then valid else invalid else invalid

unfoldable pub verify_topology_commitment :
    TopoRegime → Bool → List ℕ → TopologyState → CommitVerdict
verify_topology_commitment regime has_commitment commitment expected =
    verdict_at regime has_commitment
      (has_commitment && same_bytes commitment (expected_topology_commitment expected))

unfoldable pub verify_lifecycle_commitment :
    TopoRegime → Bool → List ℕ → LifecycleState → CommitVerdict
verify_lifecycle_commitment regime has_commitment commitment expected =
    verdict_at regime has_commitment
      (has_commitment && same_bytes commitment (expected_lifecycle_commitment expected))
