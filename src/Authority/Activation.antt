-- ===== src/Authority/Activation.antt =====
-- The staged activation that each phase instantiates with its own heights, of
-- litenyx/LITENYX_topology_authority.h, LITENYX_chainid_lifecycle.h, LITENYX_execution_authority.h
-- and LITENYX_draining_authority.h.
use Prim.Native.String.{String}
use litenyx.Common.{ℕ, ◌≤◌, ◌≡◌, Bool, true, false, ◌||◌, ltb, leb, ◌==◌, if◌then◌else◌, arith}
use litenyx.Common.Words.{u32_max}
use litenyx.Params.{for_network}

abbrev pub activation_disabled : ℕ
activation_disabled = u32_max

pub data TopoRegime : Type 0 where
  pre_derivation soft_advisory hard_authority : TopoRegime

-- `LitenyxTopoActivation` (hTopology) and `LitenyxChainIdActivation` (hEnforce) are one record here.
pub record Activation : Type 0 where
  pub h_derive : ℕ
  pub h_enforce : ℕ

unfoldable pub is_disabled : Activation → Bool
is_disabled a = a.h_derive == activation_disabled

unfoldable pub is_valid : Activation → Bool
is_valid a =
    if a.h_derive == activation_disabled
    then a.h_enforce == activation_disabled
    else if a.h_derive == 0
    then false
    else leb a.h_derive a.h_enforce

unfoldable pub regime_at : Activation → ℕ → TopoRegime
unfolding is_disabled
regime_at a h =
    if is_disabled a || ltb h a.h_derive
    then pre_derivation
    else if ltb h a.h_enforce
    then soft_advisory
    else hard_authority

abbrev disabled : Activation
disabled = record { h_derive = activation_disabled; h_enforce = activation_disabled }

unfoldable pub topo_activation_for_network : String → Activation
unfolding for_network
topo_activation_for_network =
    for_network (record { h_derive = 100; h_enforce = 300 })
      (record { h_derive = 6050000; h_enforce = 6150000 }) disabled disabled

unfoldable pub chain_id_activation_for_network : String → Activation
unfolding for_network
chain_id_activation_for_network =
    for_network (record { h_derive = 200; h_enforce = 400 })
      (record { h_derive = 6200000; h_enforce = 6400000 }) disabled disabled

unfoldable pub execution_activation_for_network : String → Activation
unfolding for_network
execution_activation_for_network =
    for_network (record { h_derive = 600; h_enforce = 800 })
      (record { h_derive = 6500000; h_enforce = 6700000 }) disabled disabled

unfoldable pub drain_activation_for_network : String → Activation
unfolding for_network
drain_activation_for_network =
    for_network (record { h_derive = 1000; h_enforce = 1200 })
      (record { h_derive = 6800000; h_enforce = 7000000 }) disabled disabled

abbrev pub rank : TopoRegime → ℕ
rank pre_derivation = 0
rank soft_advisory = 1
rank hard_authority = 2

-- On every network and at every height no phase is further ahead than the phase below it: draining
-- behind execution, execution behind lifecycle, lifecycle behind topology.
pub regime_layered :
    (net_id : String) (h : ℕ)
    → (rank (regime_at (drain_activation_for_network net_id) h)
        ≤ rank (regime_at (execution_activation_for_network net_id) h))
      × (rank (regime_at (execution_activation_for_network net_id) h)
          ≤ rank (regime_at (chain_id_activation_for_network net_id) h))
      × (rank (regime_at (chain_id_activation_for_network net_id) h)
          ≤ rank (regime_at (topo_activation_for_network net_id) h))
unfolding regime_at topo_activation_for_network chain_id_activation_for_network
    execution_activation_for_network drain_activation_for_network
regime_layered net_id h = ground arith

-- A well-formed activation never steps back: a greater height has a regime at least as far.
pub regime_at_mono :
    (a : Activation) (h k : ℕ)
    → is_valid a ≡ true
    → h ≤ k
    → rank (regime_at a h) ≤ rank (regime_at a k)
unfolding regime_at is_valid
regime_at_mono a h k w le = ground arith
