-- ===== src/Validation.antt =====
-- The hooks of litenyx/LITENYX_validation.cpp that decide on a block, and their order in
-- `ConnectBlock` of deploy/patches/litenyx-validation.patch. Block storage, block hashes and weights
-- are the daemon's: the index of the previous block holds what it answers.
pub mod Hooks
pub mod Authority
mod Tests
use Prim.Native.String.{String}
use litenyx.Common.{
  ℕ, suc, ◌+◌, Bool, true, false, not, Option, none, some, List, [], ◌∷◌, ◌++◌, leb, ◌==◌,
  if◌then◌else◌, length,
}
use litenyx.Common.Int.{ℤ, pos, ltb_ℤ}
use litenyx.Common.Words.{u8}
use litenyx.Params.{max_chains, shared_state_height_for_network}
use litenyx.AuxHeader.{
  AuxHeader, has_known_magic, has_topology_commitment, has_lifecycle_commitment,
}
use litenyx.Authority.{TopologyState, CommittedBlock, genesis, expected_topology_from_chain}
use litenyx.Authority.Activation.{
  TopoRegime, pre_derivation, soft_advisory, hard_authority, regime_at, topo_activation_for_network,
  chain_id_activation_for_network, execution_activation_for_network,
}
use litenyx.Lifecycle.{LifecycleState, lifecycle_genesis, expected_lifecycle_from_chain}
use litenyx.Execution.{ExecutionAuthorityCode, resolve_execution_authority_for_lane}
use litenyx.Commitment.{
  CommitVerdict, valid, invalid, advisory_mismatch, same_bytes, verify_topology_commitment,
  verify_lifecycle_commitment,
}
use litenyx.Spend.{World, Tx, SpendBlock, connect_shared_state}

pub record NyxBlock : Type 0 where
  pub nyx_aux : AuxHeader
  pub vtx : List Tx
  pub weight : ℤ  -- GetBlockWeight

-- `pindexPrev`: the hash of the block, and the bodies at the heights from 1 up to its own, of which
-- `none` cannot be read.
pub record BlockIndex : Type 0 where
  pub block_hash : List ℕ
  pub bodies : List (Option NyxBlock)

-- The height of a block is far below 2^31.
abbrev pub next_height : Option BlockIndex → ℕ
next_height none = 0
next_height (some prev) = length prev.bodies + 1

pub data RejectReason : Type 0 where
  aux_reserved chain_id_out_of_range aux_anchor double_spend : RejectReason
  topo_commit_premature topo_reconstruct_unavailable topo_commit_invalid : RejectReason
  lifecycle_commit_premature lifecycle_reconstruct_unavailable : RejectReason
  lifecycle_derivation_invalid lifecycle_commit_invalid : RejectReason
  exec_reconstruct_unavailable exec_derivation_invalid : RejectReason
  exec_unknown exec_revoked exec_wrong_lane exec_premature exec_malformed : RejectReason

pub data CheckResult : Type 0 where
  accepted : CheckResult
  rejected : RejectReason → CheckResult

abbrev anchored : AuxHeader → Option BlockIndex → Bool
anchored aux none = true
anchored aux (some prev) = same_bytes aux.aux_anchor prev.block_hash

pub check_aux_header : NyxBlock → Option BlockIndex → String → CheckResult
check_aux_header b prev net_id =
    if ltb_ℤ (pos (next_height prev)) (shared_state_height_for_network net_id)
    then accepted
    else if not (has_known_magic b.nyx_aux)
    then accepted
    else if not (b.nyx_aux.reserved == 0)
    then rejected aux_reserved
    else if leb max_chains b.nyx_aux.chain_id
    then rejected chain_id_out_of_range
    else if not (anchored b.nyx_aux prev)
    then rejected aux_anchor
    else accepted

-- `chainId` is narrowed to a byte.
abbrev pub committed : NyxBlock → CommittedBlock
committed b = record { chain_id = u8 b.nyx_aux.chain_id; block_weight = b.weight }

pub read_bodies : List (Option NyxBlock) → Option (List CommittedBlock)
read_bodies [] = some []
read_bodies (none ∷ bodies) = none
read_bodies (some b ∷ bodies) = elim (read_bodies bodies) [
  | none ↦ none
  | some chain ↦ some (committed b ∷ chain)
]

abbrev pub with_tip : NyxBlock → Option (List CommittedBlock) → Option (List CommittedBlock)
with_tip b none = none
with_tip b (some chain) = some (chain ++ committed b ∷ [])

abbrev pub build_canonical_blocks : NyxBlock → Option BlockIndex → Option (List CommittedBlock)
build_canonical_blocks b none = some []
build_canonical_blocks b (some prev) = with_tip b (read_bodies prev.bodies)

abbrev on_verdict : RejectReason → CommitVerdict → CheckResult
on_verdict reason valid = accepted
on_verdict reason advisory_mismatch = accepted
on_verdict reason invalid = rejected reason

abbrev topology_result : TopoRegime → NyxBlock → ℕ → Option (List CommittedBlock) → CheckResult
topology_result regime b height none = rejected topo_reconstruct_unavailable
topology_result regime b height (some chain) = on_verdict topo_commit_invalid (
    verify_topology_commitment regime (has_topology_commitment b.nyx_aux)
      b.nyx_aux.topology_commitment (expected_topology_from_chain genesis chain height))

abbrev topology_at : TopoRegime → NyxBlock → Option BlockIndex → CheckResult
topology_at pre_derivation b prev = on_verdict topo_commit_premature (
    verify_topology_commitment pre_derivation (has_topology_commitment b.nyx_aux)
      b.nyx_aux.topology_commitment genesis)
topology_at soft_advisory b prev =
    topology_result soft_advisory b (next_height prev) (build_canonical_blocks b prev)
topology_at hard_authority b prev =
    topology_result hard_authority b (next_height prev) (build_canonical_blocks b prev)

pub check_topology_commitment : NyxBlock → Option BlockIndex → String → CheckResult
check_topology_commitment b prev net_id =
    topology_at (regime_at (topo_activation_for_network net_id) (next_height prev)) b prev

abbrev lifecycle_verdict : TopoRegime → NyxBlock → Option LifecycleState → CheckResult
lifecycle_verdict regime b none = rejected lifecycle_derivation_invalid
lifecycle_verdict regime b (some expected) = on_verdict lifecycle_commit_invalid (
    verify_lifecycle_commitment regime (has_lifecycle_commitment b.nyx_aux)
      b.nyx_aux.lifecycle_commitment expected)

abbrev lifecycle_result : TopoRegime → NyxBlock → ℕ → Option (List CommittedBlock) → CheckResult
lifecycle_result regime b height none = rejected lifecycle_reconstruct_unavailable
lifecycle_result regime b height (some chain) =
    lifecycle_verdict regime b (expected_lifecycle_from_chain chain height)

abbrev lifecycle_at : TopoRegime → NyxBlock → Option BlockIndex → CheckResult
lifecycle_at pre_derivation b prev = on_verdict lifecycle_commit_premature (
    verify_lifecycle_commitment pre_derivation (has_lifecycle_commitment b.nyx_aux)
      b.nyx_aux.lifecycle_commitment lifecycle_genesis)
lifecycle_at soft_advisory b prev =
    lifecycle_result soft_advisory b (next_height prev) (build_canonical_blocks b prev)
lifecycle_at hard_authority b prev =
    lifecycle_result hard_authority b (next_height prev) (build_canonical_blocks b prev)

pub check_lifecycle_commitment : NyxBlock → Option BlockIndex → String → CheckResult
check_lifecycle_commitment b prev net_id =
    lifecycle_at (regime_at (chain_id_activation_for_network net_id) (next_height prev)) b prev

abbrev code_result : ExecutionAuthorityCode → CheckResult
code_result ExecutionAuthorityCode.ok = accepted
code_result ExecutionAuthorityCode.unknown = rejected exec_unknown
code_result ExecutionAuthorityCode.revoked = rejected exec_revoked
code_result ExecutionAuthorityCode.wrong_lane = rejected exec_wrong_lane
code_result ExecutionAuthorityCode.premature = rejected exec_premature
code_result ExecutionAuthorityCode.malformed = rejected exec_malformed

-- In the soft regime a decision is only printed.
abbrev regime_result : TopoRegime → ExecutionAuthorityCode → CheckResult
regime_result pre_derivation code = accepted
regime_result soft_advisory code = accepted
regime_result hard_authority code = code_result code

abbrev execution_decision : TopoRegime → NyxBlock → ℕ → Option LifecycleState → CheckResult
execution_decision regime b height none = rejected exec_derivation_invalid
execution_decision regime b height (some expected) =
    regime_result regime
      (resolve_execution_authority_for_lane expected b.nyx_aux.chain_id height regime).code

abbrev execution_result : TopoRegime → NyxBlock → ℕ → Option (List CommittedBlock) → CheckResult
execution_result regime b height none = rejected exec_reconstruct_unavailable
execution_result regime b height (some chain) =
    execution_decision regime b height (expected_lifecycle_from_chain chain height)

abbrev execution_at : TopoRegime → NyxBlock → Option BlockIndex → CheckResult
execution_at pre_derivation b prev = accepted
execution_at soft_advisory b prev =
    execution_result soft_advisory b (next_height prev) (build_canonical_blocks b prev)
execution_at hard_authority b prev =
    execution_result hard_authority b (next_height prev) (build_canonical_blocks b prev)

pub check_execution_authority : NyxBlock → Option BlockIndex → String → CheckResult
check_execution_authority b prev net_id =
    execution_at (regime_at (execution_activation_for_network net_id) (next_height prev)) b prev

abbrev pub then_check : CheckResult → CheckResult → CheckResult
then_check accepted next = next
then_check (rejected reason) next = rejected reason

abbrev spend_result : Bool → CheckResult
spend_result true = accepted
spend_result false = rejected double_spend

abbrev after_aux : World → NyxBlock → Option BlockIndex → String → CheckResult → World × CheckResult
after_aux w b prev net_id (rejected reason) = (w, rejected reason)
after_aux w b prev net_id accepted =
    let (w', spent) =
      connect_shared_state w (record { chain_id = b.nyx_aux.chain_id; vtx = b.vtx }) in
    (
      w',
      then_check (spend_result spent) (
          then_check (check_topology_commitment b prev net_id) (
            then_check (check_lifecycle_commitment b prev net_id)
              (check_execution_authority b prev net_id))),
    )

-- The calls of `ConnectBlock`, the first rejection ends them.
pub connect_hooks : World → NyxBlock → Option BlockIndex → String → World × CheckResult
connect_hooks w b prev net_id = after_aux w b prev net_id (check_aux_header b prev net_id)
