-- ===== src/Authority/Tests.antt =====
-- Runs of the authority, and its theorems at concrete inputs.
use mathlib.Core.List.{Permᴰ, Nodup, Pairwise, eq-or-mem_of_mem-cons, not-mem-nil}
use mathlib.Core.HLevel.{⊥_prop}
use mathlib.Core.Logic.Or
use litenyx.Common.{
  get_or, ℕ, ◌+◌, ◌≤◌, ◌≡◌, ◌≢◌, refl, List, [], ◌∷◌, ◌++◌, length, replicate, arith,
}
use litenyx.Common.Int.{ℤ, pos}
use litenyx.Topology.{
  clamp_chains, decide_by_load, in_cooldown, topo_decide, topo_apply, aggregate_load, sum_m_c,
  transition_height, obs_window,
}
use litenyx.Topology.Apply.{InRange}
use litenyx.Authority.{
  CommittedBlock, CommittedHistory, genesis, demand_v1, mean, mc_v1, for_lanes, add_block,
  add_blocks, reconstruct_mc_v1_window, expected_topology_from_chain, derive_topology_at_boundary,
  derive_step, derive_loop, loop_rounds, expected_topology, observations, enact, window_at,
  mc_to_controller_input,
}
use litenyx.Authority.Activation.{
  Activation, regime_at, is_valid, rank, topo_activation_for_network,
  chain_id_activation_for_network, execution_activation_for_network, drain_activation_for_network,
  regime_layered, regime_at_mono,
}
use litenyx.Authority.Window.{
  IsMean, lane_sum, lane_count, reconstruct_mc_v1_window_lem, reconstruct_mc_v1_window-Perm,
}
use litenyx.Authority.Loop.{derive_rounds}
use litenyx.Authority.Boundary.{Boundary, derive-Boundary, transition_spacing}
use litenyx.Authority.History.{heights, expected_topology-Perm, expected_topology-InRange}
use litenyx.Authority.Chain.{
  expected_topology_from_chain-append, expected_topology_from_chain_extend,
}

abbrev full_block : ℕ → CommittedBlock
full_block c = record { chain_id = c; block_weight = pos 4000000 }

abbrev two_blocks : List CommittedBlock
two_blocks = full_block 0 ∷ record { chain_id = 1; block_weight = pos 1000000 } ∷ []

-- One window, with full blocks on both lanes.
abbrev full_window : List CommittedBlock
full_window = replicate 50 (full_block 0) ++ replicate 50 (full_block 1)

two_blocks_demand : reconstruct_mc_v1_window two_blocks 2 ≡ pos 10000 ∷ pos 2500 ∷ []
unfolding reconstruct_mc_v1_window clamp_chains add_blocks add_block mean for_lanes demand_v1
two_blocks_demand = refl

mc_v1_floor : mc_v1 (10000 ∷ 2500 ∷ 1 ∷ []) ≡ 4167
unfolding mc_v1
mc_v1_floor = refl

abbrev busy_demand : List ℤ
busy_demand = pos 9000 ∷ pos 9500 ∷ []

busy_boundary_splits :
    derive_topology_at_boundary genesis 100 busy_demand
    ≡ record { n_version = 1; n_height = 100; n_n = 3; n_last_transition = 300 }
unfolding derive_topology_at_boundary enact observations mc_to_controller_input topo_decide
    in_cooldown decide_by_load clamp_chains aggregate_load sum_m_c topo_apply transition_height
busy_boundary_splits = refl

-- Two full windows: the first boundary splits, and the second holds.
abbrev two_windows : List CommittedBlock
two_windows = full_window ++ full_window

two_windows_state :
    expected_topology_from_chain genesis two_windows 250
    ≡ record { n_version = 1; n_height = 200; n_n = 3; n_last_transition = 300 }
unfolding expected_topology_from_chain derive_loop loop_rounds derive_step window_at
    reconstruct_mc_v1_window add_blocks add_block mean for_lanes demand_v1
    derive_topology_at_boundary enact observations mc_to_controller_input topo_decide in_cooldown
    decide_by_load clamp_chains aggregate_load sum_m_c topo_apply transition_height
two_windows_state = refl

regime_layered_example :
    (rank (regime_at (drain_activation_for_network "regtest") 700)
      ≤ rank (regime_at (execution_activation_for_network "regtest") 700))
    × (rank (regime_at (execution_activation_for_network "regtest") 700)
        ≤ rank (regime_at (chain_id_activation_for_network "regtest") 700))
    × (rank (regime_at (chain_id_activation_for_network "regtest") 700)
        ≤ rank (regime_at (topo_activation_for_network "regtest") 700))
regime_layered_example = regime_layered "regtest" 700

abbrev regtest_topology : Activation
regtest_topology = record { h_derive = 100; h_enforce = 300 }

regime_at_mono_example :
    rank (regime_at regtest_topology 100) ≤ rank (regime_at regtest_topology 400)
unfolding is_valid
regime_at_mono_example = regime_at_mono regtest_topology 100 400 refl (omega arith)

reconstruct_mc_v1_window_lem_example :
    (length (reconstruct_mc_v1_window two_blocks 2) ≡ clamp_chains 2)
    × IsMean
        (lane_sum 0 two_blocks)
        (lane_count 0 two_blocks)
        (get_or (reconstruct_mc_v1_window two_blocks 2) 0 (pos 0))
reconstruct_mc_v1_window_lem_example =
    reconstruct_mc_v1_window_lem two_blocks 2 0 (unfold clamp_chains in omega arith)

abbrev swapped_blocks : List CommittedBlock
swapped_blocks = record { chain_id = 1; block_weight = pos 1000000 } ∷ full_block 0 ∷ []

reconstruct_mc_v1_window-Perm_example :
    reconstruct_mc_v1_window two_blocks 2 ≡ reconstruct_mc_v1_window swapped_blocks 2
reconstruct_mc_v1_window-Perm_example =
    reconstruct_mc_v1_window-Perm two_blocks swapped_blocks 2 ∣ Permᴰ.swap refl refl ∣₁

derive-Boundary_example : Boundary 100 genesis (derive_topology_at_boundary genesis 100 busy_demand)
derive-Boundary_example = derive-Boundary genesis 100 busy_demand (omega arith)

first_boundary_splits : (derive_step full_window 100 genesis).n_n ≢ genesis.n_n
unfolding derive_step window_at reconstruct_mc_v1_window add_blocks add_block mean for_lanes
    demand_v1 derive_topology_at_boundary enact observations mc_to_controller_input topo_decide
    in_cooldown decide_by_load clamp_chains aggregate_load sum_m_c topo_apply transition_height
first_boundary_splits = λ e. omega arith

transition_spacing_example :
    (derive_rounds 3 (100 + obs_window) full_window (derive_step full_window 100 genesis)).n_n
    ≡ (derive_step full_window 100 genesis).n_n
transition_spacing_example =
    transition_spacing full_window 100 3 genesis (omega arith) (omega arith) first_boundary_splits
      (omega arith)

abbrev two_boundaries : CommittedHistory
two_boundaries = (200, busy_demand) ∷ (100, busy_demand) ∷ []

abbrev sorted_boundaries : CommittedHistory
sorted_boundaries = (100, busy_demand) ∷ (200, busy_demand) ∷ []

two_boundaries-Nodup : Nodup (heights two_boundaries)
two_boundaries-Nodup =
    Pairwise.cons
      (λ h m f. Or.elim ⊥_prop (eq-or-mem_of_mem-cons m) (λ e. omega arith) (λ k. not-mem-nil k))
      (Pairwise.cons (λ h m f. not-mem-nil m) Pairwise.nil)

expected_topology-Perm_example :
    expected_topology genesis two_boundaries 250 ≡ expected_topology genesis sorted_boundaries 250
expected_topology-Perm_example =
    expected_topology-Perm genesis two_boundaries sorted_boundaries 250 ∣ Permᴰ.swap refl refl ∣₁
      two_boundaries-Nodup

expected_topology-InRange_example : InRange (expected_topology genesis two_boundaries 250).n_n
expected_topology-InRange_example =
    expected_topology-InRange genesis two_boundaries 250 (omega arith)

expected_topology_from_chain-append_example :
    expected_topology_from_chain genesis (full_window ++ two_blocks) 100
    ≡ expected_topology_from_chain genesis full_window 100
expected_topology_from_chain-append_example =
    expected_topology_from_chain-append genesis full_window two_blocks 100 (omega arith)
      (omega arith)

expected_topology_from_chain_extend_example :
    expected_topology_from_chain genesis
      (full_window ++ full_window)
      (length full_window + obs_window)
    ≡ derive_topology_at_boundary
        (expected_topology_from_chain genesis full_window (length full_window))
        (length full_window + obs_window)
        (reconstruct_mc_v1_window full_window
          (expected_topology_from_chain genesis full_window (length full_window)).n_n)
expected_topology_from_chain_extend_example =
    expected_topology_from_chain_extend genesis full_window full_window 1 (omega arith) refl refl
      (omega arith)
