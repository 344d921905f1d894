-- ===== src/Validation/Tests.antt =====
-- The hooks at concrete blocks of the regression network.
use litenyx.Common.{ℕ, ◌<◌, ◌≡◌, ◌↔◌, refl, true, some, [], ◌∷◌, ◌++◌, replicate, arith}
use litenyx.Common.Int.{pos}
use litenyx.Params.{max_chains, shared_state_height_for_network, for_network}
use litenyx.AuxHeader.{magic_v1, null_header}
use litenyx.Authority.{genesis, expected_topology_from_chain}
use litenyx.Authority.Activation.{
  hard_authority, is_disabled, regime_at, execution_activation_for_network,
  topo_activation_for_network, chain_id_activation_for_network,
}
use litenyx.Spend.{empty, World, connect_shared_state}
use litenyx.Validation.{
  NyxBlock, BlockIndex, next_height, accepted, committed, read_bodies, check_aux_header,
  check_topology_commitment, check_lifecycle_commitment, check_execution_authority, connect_hooks,
}
use litenyx.Validation.Hooks.{
  check_aux_header_iff, TopologyAsked, check_topology_commitment_iff, LifecycleAsked,
  check_lifecycle_commitment_iff,
}
use litenyx.Validation.Authority.{check_execution_authority_iff, connect_hooks_iff}

abbrev plain : NyxBlock
plain = record {
  nyx_aux = record null_header { magic = magic_v1; chain_id = 1 };
  vtx = [];
  weight = pos 4000;
}

abbrev index_of : ℕ → BlockIndex
index_of height = record { block_hash = replicate 32 0; bodies = replicate height (some plain) }

check_aux_header_iff_example : (check_aux_header plain (some (index_of 3)) "regtest" ≡ accepted) ↔ (
    (plain.nyx_aux.reserved ≡ 0)
    × (plain.nyx_aux.chain_id < max_chains)
    × (plain.nyx_aux.aux_anchor ≡ (index_of 3).block_hash))
unfolding shared_state_height_for_network for_network
check_aux_header_iff_example = check_aux_header_iff plain (index_of 3) "regtest" (omega arith) refl

check_topology_commitment_iff_example :
    (check_topology_commitment plain (some (index_of 3)) "regtest" ≡ accepted)
    ↔ TopologyAsked (regime_at (topo_activation_for_network "regtest") 4) plain (some (index_of 3))
check_topology_commitment_iff_example =
    check_topology_commitment_iff plain (some (index_of 3)) "regtest"

check_lifecycle_commitment_iff_example :
    (check_lifecycle_commitment plain (some (index_of 3)) "regtest" ≡ accepted)
    ↔ LifecycleAsked
        (regime_at (chain_id_activation_for_network "regtest") 4)
        plain
        (some (index_of 3))
check_lifecycle_commitment_iff_example =
    check_lifecycle_commitment_iff plain (some (index_of 3)) "regtest"

late_is_hard :
    regime_at (execution_activation_for_network "regtest") (next_height (some (index_of 800)))
    ≡ hard_authority
unfolding regime_at is_disabled execution_activation_for_network for_network
late_is_hard = refl

late_bodies : read_bodies (index_of 800).bodies ≡ some (replicate 800 (committed plain))
unfolding read_bodies
late_bodies = refl

check_execution_authority_iff_example :
    (check_execution_authority plain (some (index_of 800)) "regtest" ≡ accepted) ↔ (
      1
      < (expected_topology_from_chain genesis
          (replicate 800 (committed plain) ++ committed plain ∷ [])
          801).n_n)
check_execution_authority_iff_example =
    check_execution_authority_iff plain (index_of 800) "regtest" (replicate 800 (committed plain))
      late_is_hard late_bodies (omega arith)

abbrev clean : World
clean = record { live = empty; scopes = [] }

connect_hooks_iff_example :
    ((connect_hooks clean plain (some (index_of 3)) "regtest").1 ≡ accepted) ↔ (
      (check_aux_header plain (some (index_of 3)) "regtest" ≡ accepted)
      × ((connect_shared_state clean (record { chain_id = 1; vtx = [] })).1 ≡ true)
      × (check_topology_commitment plain (some (index_of 3)) "regtest" ≡ accepted)
      × (check_lifecycle_commitment plain (some (index_of 3)) "regtest" ≡ accepted)
      × (check_execution_authority plain (some (index_of 3)) "regtest" ≡ accepted))
connect_hooks_iff_example = connect_hooks_iff clean plain (some (index_of 3)) "regtest"
