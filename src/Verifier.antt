-- ===== src/Verifier.antt =====
-- litenyx/LITENYX_iw2_verifier.h: whether a work carrier of a parent chain counts for a block. The
-- SHA-256 and the scrypt are the daemon's, and parameters here.
pub mod Target
pub mod Inclusion
pub mod Verdict
mod Tests
use litenyx.Common.{
  ℕ, suc, ◌+◌, ◌*◌, ◌/◌, ◌%◌, ◌^◌, Bool, true, false, not, ◌&&◌, Option, none, some, List, [], ◌∷◌,
  ◌++◌, ltb, ◌==◌, if◌then◌else◌, length, replicate,
}
use litenyx.Commitment.{same_bytes}
use litenyx.Carrier.{GalacticWorkHeader, gw_version_v1, gw_tag_leaf, gw_tag_node, encode_gw}

pub data Predicate : Type 0 where
  domain_bound commitment_valid work_valid structural_valid : Predicate

pub data Reason : Type 0 where
  ok protocol_mismatch network_mismatch proof_length root_mismatch above_target : Reason
  bad_version no_protocol no_network : Reason

pub record PredicateResult : Type 0 where
  pub pass : Bool
  pub predicate : Predicate
  pub reason : Reason

abbrev pub passed : Predicate → PredicateResult
passed p = record { pass = true; predicate = p; reason = ok }

abbrev pub failed : Predicate → Reason → PredicateResult
failed p r = record { pass = false; predicate = p; reason = r }

pub domain_bound_g : GalacticWorkHeader → ℕ → ℕ → PredicateResult
domain_bound_g h protocol network =
    if not (h.protocol_domain == protocol)
    then failed domain_bound protocol_mismatch
    else if not (h.network_domain == network)
    then failed domain_bound network_mismatch
    else passed domain_bound

pub structural_valid_g : GalacticWorkHeader → PredicateResult
structural_valid_g h =
    if not (h.version == gw_version_v1)
    then failed structural_valid bad_version
    else if h.protocol_domain == 0
    then failed structural_valid no_protocol
    else if h.network_domain == 0
    then failed structural_valid no_network
    else passed structural_valid

pub record InclusionProof : Type 0 where
  pub leaf_index : ℕ  -- uint64
  pub sibling_hashes : List (List ℕ)

-- (i >> j) & 1
abbrev pub bit : ℕ → ℕ → Bool
bit j i = i / 2 ^ j % 2 == 1

-- Both byte strings, read with the first byte as the most significant.
pub work_hash_le_target : List ℕ → List ℕ → Bool
work_hash_le_target (w ∷ work) (t ∷ target) =
    if ltb w t then true else if ltb t w then false else work_hash_le_target work target
work_hash_le_target _ _ = true

pub record VerificationResult : Type 0 where
  pub domain : PredicateResult
  pub commitment : PredicateResult
  pub work : PredicateResult
  pub structural : PredicateResult
  pub valid : Bool

pub first_failure : VerificationResult → Option Predicate
first_failure r =
    if not r.domain.pass
    then some domain_bound
    else if not r.structural.pass
    then some structural_valid
    else if not r.commitment.pass
    then some commitment_valid
    else if not r.work.pass
    then some work_valid
    else none

module _ (sha256 : List ℕ → List ℕ) where
  pub compute_leaf_hash : List ℕ → List ℕ
  compute_leaf_hash block_hash = sha256 (gw_tag_leaf ++ block_hash)

  pub compute_node_hash : List ℕ → List ℕ → List ℕ
  compute_node_hash left right = sha256 (gw_tag_node ++ (left ++ right))

  -- One round of the loop over the siblings, at level j.
  pub combine : ℕ → ℕ → List ℕ → List ℕ → List ℕ
  combine i j z sibling =
      if bit j i then compute_node_hash sibling z else compute_node_hash z sibling

  pub climb : ℕ → ℕ → List ℕ → List (List ℕ) → List ℕ
  climb i j z [] = z
  climb i j z (s ∷ siblings) = climb i (j + 1) (combine i j z s) siblings

  pub commitment_valid_g : List ℕ → List ℕ → InclusionProof → ℕ → PredicateResult
  commitment_valid_g root block_hash proof d_max =
      if not (length proof.sibling_hashes == d_max)
      then failed commitment_valid proof_length
      else if same_bytes
          (climb proof.leaf_index 0 (compute_leaf_hash block_hash) proof.sibling_hashes) root
      then passed commitment_valid
      else failed commitment_valid root_mismatch

module _ (scrypt : List ℕ → List ℕ) where
  -- The carrier fills the first 49 of 80 bytes, and zeros the rest.
  pub compute_work_hash : List ℕ → List ℕ
  compute_work_hash header = scrypt (header ++ replicate 31 0)

  pub work_valid_g : List ℕ → List ℕ → PredicateResult
  work_valid_g header target =
      if work_hash_le_target (compute_work_hash header) target
      then passed work_valid
      else failed work_valid above_target

module _ (sha256 scrypt : List ℕ → List ℕ) where
  -- The bytes of the packed header on a little-endian host are its encoding.
  pub valid_parent_work_carrier_g :
      GalacticWorkHeader → ℕ → ℕ → List ℕ → InclusionProof → ℕ → List ℕ → VerificationResult
  valid_parent_work_carrier_g h protocol network block_hash proof d_max target =
      let domain = domain_bound_g h protocol network in
      let structural = structural_valid_g h in
      let commitment = commitment_valid_g sha256 h.commitment_root block_hash proof d_max in
      let work = work_valid_g scrypt (encode_gw h) target in
      record {
        domain = domain;
        commitment = commitment;
        work = work;
        structural = structural;
        valid = domain.pass && (structural.pass && (commitment.pass && work.pass));
      }
