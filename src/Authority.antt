-- ===== src/Authority.antt =====
-- litenyx/LITENYX_topology_authority.h: the topology that canonical history alone determines, from
-- the demand of a block up to the state at the tip. Its hash is in Sha256, its verdict in Commitment.
pub mod Activation
pub mod Loop
pub mod Window
pub mod Boundary
pub mod History
pub mod Chain
mod Tests
use litenyx.Common.{
  ℕ, zero, suc, ◌+◌, ◌-◌, ◌*◌, ◌/◌, ◌^◌, Bool, true, false, List, [], ◌∷◌, ◌++◌, map, ltb, leb,
  ◌==◌, if◌then◌else◌, length, get_or, set, take, drop, replicate, min,
}
use litenyx.Common.Int.{ℤ, pos, ltb_ℤ, div_trunc, pos_part}
use litenyx.Common.Words.{le32, u32}
use litenyx.Params.{min_chains}
use litenyx.Topology.{
  TopoDecision, hold, split, merge, ChainObservation, topo_decide, topo_apply, transition_height,
  clamp_chains, obs_window,
}

abbrev pub demand_scale : ℕ
demand_scale = 10000

abbrev pub max_block_weight : ℕ
max_block_weight = 4000000

abbrev pub controller_downscale : ℕ
controller_downscale = demand_scale / 100

abbrev pub topology_state_version : ℕ
topology_state_version = 1

-- A negative weight counts as 0, which `pos_part` makes of it.
pub demand_v1 : ℤ → ℕ
demand_v1 block_weight =
    let d = pos_part block_weight * demand_scale / max_block_weight in
    if ltb demand_scale d then demand_scale else d

sum_samples : List ℕ → ℕ
sum_samples [] = 0
sum_samples (s ∷ samples) = s + sum_samples samples

pub mc_v1 : List ℕ → ℕ
unfolding sum_samples
mc_v1 [] = 0
mc_v1 (s ∷ samples) = sum_samples (s ∷ samples) / length (s ∷ samples)

pub mc_to_controller_input : ℤ → ℤ
mc_to_controller_input mc =
    let r = pos_part mc / controller_downscale in pos (if ltb 100 r then 100 else r)

pub record CommittedBlock : Type 0 where
  pub chain_id : ℕ  -- uint8
  pub block_weight : ℤ  -- int64

-- The two vectors `sumD` and `cntD`.
pub record WindowSums : Type 0 where
  pub sum_d : List ℕ
  pub cnt_d : List ℕ

pub add_block : ℕ → WindowSums → CommittedBlock → WindowSums
add_block n_active s b = if leb n_active b.chain_id then s else record {
  sum_d = set s.sum_d b.chain_id (get_or s.sum_d b.chain_id 0 + demand_v1 b.block_weight);
  cnt_d = set s.cnt_d b.chain_id (get_or s.cnt_d b.chain_id 0 + 1);
}

pub add_blocks : ℕ → WindowSums → List CommittedBlock → WindowSums
add_blocks n_active s [] = s
add_blocks n_active s (b ∷ bs) = add_blocks n_active (add_block n_active s b) bs

pub mean : ℕ → ℕ → ℤ
mean sum cnt = if cnt == 0 then pos 0 else pos (sum / cnt)

-- for (c = first; c < first + rounds; ++c) out[c] = f(c);
pub for_lanes {ℓ} : {A : Type ℓ} → ℕ → ℕ → (ℕ → A) → List A
for_lanes zero first f = []
for_lanes (suc rounds) first f = f first ∷ for_lanes rounds (first + 1) f

pub reconstruct_mc_v1_window : List CommittedBlock → ℕ → List ℤ
reconstruct_mc_v1_window blocks n =
    let n_active = clamp_chains n in
    let zeros = replicate n_active 0 in
    let s = add_blocks n_active (record { sum_d = zeros; cnt_d = zeros }) blocks in
    for_lanes n_active 0 (λ c. mean (get_or s.sum_d c 0) (get_or s.cnt_d c 0))

pub record TopologyState : Type 0 where
  pub n_version : ℕ  -- uint32
  pub n_height : ℕ  -- uint32
  pub n_n : ℕ  -- uint8
  pub n_last_transition : ℕ  -- uint32

abbrev pub genesis : TopologyState
genesis = record {
  n_version = topology_state_version;
  n_height = 0;
  n_n = min_chains;
  n_last_transition = 0;
}

pub serialize_topology_state : TopologyState → List ℕ
serialize_topology_state s = le32 s.n_version ++ le32 s.n_height ++ s.n_n ∷ le32 s.n_last_transition

pub observations : List ℤ → List ChainObservation
observations [] = []
observations (mc ∷ mcs) = record { m_c = mc_to_controller_input mc } ∷ observations mcs

-- The body of `if (d != HOLD)`, on the state whose height is already set.
pub enact : TopologyState → ℕ → TopoDecision → TopologyState
enact next h_obs hold = next
enact next h_obs d =
    let new_n = topo_apply next.n_n d in
    if new_n == next.n_n
    then next
    else record next { n_n = new_n; n_last_transition = transition_height h_obs }

pub derive_topology_at_boundary : TopologyState → ℕ → List ℤ → TopologyState
derive_topology_at_boundary prev h_obs mcs =
    enact (record prev { n_height = h_obs }) h_obs
      (topo_decide (observations mcs) prev.n_n h_obs prev.n_last_transition)

-- The blocks at the heights h - W + 1 to h of a chain that starts at height 1; below W the first of
-- these heights wraps beyond the last, and there is none.
pub window_at : List CommittedBlock → ℕ → List CommittedBlock
window_at chain h = if ltb h obs_window then [] else take obs_window (drop (h - obs_window) chain)

pub derive_step : List CommittedBlock → ℕ → TopologyState → TopologyState
derive_step chain h state =
    derive_topology_at_boundary state h (reconstruct_mc_v1_window (window_at chain h) state.n_n)

-- The uint32 height of the loops visits multiples of 4 only, so a loop that has made this many rounds
-- is back at a height it had before, and never returns.
pub loop_rounds : ℕ
loop_rounds = 2 ^ 30

-- for (h = first; h <= tip; h += W), with the fuel first.
unfoldable pub derive_loop : ℕ → ℕ → ℕ → List CommittedBlock → TopologyState → TopologyState
derive_loop zero h tip chain state = state
derive_loop (suc fuel) h tip chain state = elim (leb h tip) [
  | true ↦ derive_loop fuel (u32 (h + obs_window)) tip chain (derive_step chain h state)
  | false ↦ state
]

unfoldable pub expected_topology_from_chain :
    TopologyState → List CommittedBlock → ℕ → TopologyState
expected_topology_from_chain state chain tip_height =
    let tip = if ltb (length chain) tip_height then length chain else tip_height in
    record (derive_loop loop_rounds obs_window tip chain state) { n_height = tip }

-- `LitenyxCommittedHistory`: boundary heights with the demand of each lane.
abbrev pub CommittedHistory : Type 0
CommittedHistory = List (ℕ × List ℤ)

pub add_boundary : CommittedHistory → ℕ → List ℤ → CommittedHistory
add_boundary history h mcs = history ++ (h, mcs) ∷ []

pub insert_boundary : ℕ × List ℤ → CommittedHistory → CommittedHistory
insert_boundary kv [] = kv ∷ []
insert_boundary (h, mcs) ((k, other) ∷ rest) =
    if ltb k h then (k, other) ∷ insert_boundary (h, mcs) rest else (h, mcs) ∷ (k, other) ∷ rest

-- `std::sort` by height; the order that it gives boundaries of one height is not specified.
pub sort_boundaries : CommittedHistory → CommittedHistory
sort_boundaries [] = []
sort_boundaries (kv ∷ history) = insert_boundary kv (sort_boundaries history)

-- The loop over the sorted boundaries, left at the first one above the tip.
pub fold_boundaries : ℕ → CommittedHistory → TopologyState → TopologyState
fold_boundaries tip [] state = state
fold_boundaries tip ((h, mcs) ∷ rest) state =
    if ltb tip h then state else fold_boundaries tip rest (derive_topology_at_boundary state h mcs)

pub expected_topology : TopologyState → CommittedHistory → ℕ → TopologyState
expected_topology state history tip_height =
    record (fold_boundaries tip_height (sort_boundaries history) state) { n_height = tip_height }
