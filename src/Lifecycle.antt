-- ===== src/Lifecycle.antt =====
-- litenyx/LITENYX_chainid_lifecycle.h: persistent chain identities above the topology's lanes. An
-- out parameter with a `bool` result is an `Option`; `none` is the fail-closed `false`.
pub mod Coherence
pub mod Step
pub mod Advance
pub mod Identity
pub mod Encoding
pub mod Chain
mod Tests
use litenyx.Common.{
  ℕ, zero, suc, ◌+◌, ◌-◌, ◌*◌, ◌/◌, ◌%◌, ◌^◌, Bool, true, false, not, ◌&&◌, ◌||◌, Option, none,
  some, List, [], ◌∷◌, ◌++◌, ltb, leb, ◌==◌, if◌then◌else◌, length,
}
use mathlib.Core.Option
use litenyx.Common.Words.{u8, u32, u32_max, le32}
use litenyx.Params.{min_chains}
use litenyx.Topology.{topo_max_chains, obs_window}
use litenyx.Authority.{TopologyState, CommittedBlock, genesis, derive_step, loop_rounds}

abbrev pub lifecycle_state_version : ℕ
lifecycle_state_version = 1

pub record ChainIdBinding : Type 0 where
  pub lane_id : ℕ  -- uint8
  pub chain_id : ℕ  -- uint32

pub record LifecycleState : Type 0 where
  pub n_version : ℕ  -- uint16
  pub next_chain_id : ℕ  -- uint32
  pub active_bindings : List ChainIdBinding
  pub last_lifecycle_height : ℕ  -- uint32

-- for (i = first; i < MIN_CHAINS; ++i) push_back(binding(i, i)), by the rounds left.
genesis_bindings : ℕ → ℕ → List ChainIdBinding
genesis_bindings zero i = []
genesis_bindings (suc rounds) i =
    record { lane_id = i; chain_id = i } ∷ genesis_bindings rounds (i + 1)

unfoldable pub lifecycle_genesis : LifecycleState
unfolding genesis_bindings
lifecycle_genesis = record {
  n_version = lifecycle_state_version;
  next_chain_id = min_chains;
  active_bindings = genesis_bindings min_chains 0;
  last_lifecycle_height = 0;
}

serialize_bindings : List ChainIdBinding → List ℕ
serialize_bindings [] = []
serialize_bindings (b ∷ bs) = b.lane_id ∷ le32 b.chain_id ++ serialize_bindings bs

pub serialize_lifecycle_state : LifecycleState → List ℕ
serialize_lifecycle_state l =
    l.n_version % 256 ∷ l.n_version / 2 ^ 8 % 256 ∷ le32 l.next_chain_id
    ++ length l.active_bindings % 256 ∷ serialize_bindings l.active_bindings
    ++ le32 l.last_lifecycle_height

-- The inner loop over the bindings before the i-th: is its chain id new among them?
pub is_new_chain_id : ℕ → List ChainIdBinding → Bool
is_new_chain_id c [] = true
is_new_chain_id c (b ∷ bs) = not (b.chain_id == c) && is_new_chain_id c bs

-- The outer loop; `seen` holds the bindings before the i-th.
pub bindings_coherent : ℕ → ℕ → List ChainIdBinding → List ChainIdBinding → Bool
bindings_coherent next i seen [] = true
bindings_coherent next i seen (b ∷ bs) =
    b.lane_id == u8 i
    && (ltb b.chain_id next
        && (is_new_chain_id b.chain_id seen && bindings_coherent next (i + 1) (b ∷ seen) bs))

pub is_count : ℕ → Bool
is_count n = not (ltb n min_chains || ltb topo_max_chains n)

pub lifecycle_state_coherent : LifecycleState → ℕ → Bool
lifecycle_state_coherent l n_exp =
    is_count n_exp
    && (length l.active_bindings == n_exp
        && bindings_coherent l.next_chain_id 0 [] l.active_bindings)

-- Erases the first binding of a lane, if there is one.
pub retire_lane : ℕ → List ChainIdBinding → Option (List ChainIdBinding)
retire_lane lane [] = none
retire_lane lane (b ∷ bs) =
    if b.lane_id == lane then some bs else (Option.map (λ r. b ∷ r) (retire_lane lane bs))

abbrev checked : ℕ → LifecycleState → Option LifecycleState
checked n out = if lifecycle_state_coherent out n then some out else none

advance_split : LifecycleState → ℕ → ℕ → ℕ → Option LifecycleState
advance_split l n_prev n_cur height =
    if l.next_chain_id == u32_max
    then none
    else checked n_cur (record l {
      next_chain_id = u32 (l.next_chain_id + 1);
      active_bindings =
          l.active_bindings ++ record { lane_id = n_prev; chain_id = l.next_chain_id } ∷ [];
      last_lifecycle_height = height;
    })

advance_merge : LifecycleState → ℕ → ℕ → Option LifecycleState
advance_merge l n_cur height = elim (retire_lane n_cur l.active_bindings) [
  | none ↦ none
  | some bs ↦ checked n_cur (record l { active_bindings = bs; last_lifecycle_height = height })
]

-- The signed delta `n_cur - n_prev` is read off by comparing the two counts.
pub advance_lifecycle : LifecycleState → ℕ → ℕ → ℕ → Option LifecycleState
unfolding advance_split advance_merge
advance_lifecycle prev n_prev n_cur height =
    let out = record prev { n_version = lifecycle_state_version } in
    if not (is_count n_prev) || not (is_count n_cur)
    then none
    else if not (lifecycle_state_coherent prev n_prev)
    then none
    else if ltb (n_cur + 1) n_prev || ltb (n_prev + 1) n_cur
    then none
    else if not (n_cur == n_prev) && not (height % obs_window == 0)
    then none
    else if n_cur == n_prev
    then checked n_cur out
    else if n_cur == n_prev + 1
    then advance_split out n_prev n_cur height
    else advance_merge out n_cur height

pub data ChainIdStatus : Type 0 where
  active retired nonexistent : ChainIdStatus

-- The lane of the first binding that carries the chain id.
unfoldable pub lane_of : ℕ → List ChainIdBinding → Option ℕ
lane_of c [] = none
lane_of c (b ∷ bs) = if b.chain_id == c then some b.lane_id else lane_of c bs

abbrev pub is_some {ℓ} : {A : Type ℓ} → Option A → Bool
is_some none = false
is_some (some a) = true

pub classify_chain_id : LifecycleState → ℕ → ChainIdStatus
classify_chain_id l c =
    if leb l.next_chain_id c
    then nonexistent
    else if is_some (lane_of c l.active_bindings)
    then active
    else retired

pub record ExecutionContext : Type 0 where
  pub valid : Bool
  pub chain_id : ℕ
  pub lane_id : ℕ
  pub height : ℕ
  pub status : ChainIdStatus

abbrev bind_lane : ExecutionContext → Option ℕ → ExecutionContext
bind_lane ctx none = ctx
bind_lane ctx (some lane) = record ctx { lane_id = lane; valid = true }

abbrev bind_active : ExecutionContext → ChainIdStatus → Option ℕ → ExecutionContext
bind_active ctx active lane = bind_lane ctx lane
bind_active ctx retired lane = ctx
bind_active ctx nonexistent lane = ctx

pub validate_execution_context : LifecycleState → ℕ → ℕ → ExecutionContext
validate_execution_context l c height =
    let status = classify_chain_id l c in
    bind_active
      (record { valid = false; chain_id = c; lane_id = 0; height = height; status = status }) status
      (lane_of c l.active_bindings)

-- The loop of `LitenyxCalculateExpectedLifecycleFromChain`, with the fuel first: the topology moves by
-- one boundary, and the lifecycle consumes the two counts. `none` is a refused transition, or a loop
-- that has not returned.
pub lifecycle_loop :
    ℕ → ℕ → ℕ → List CommittedBlock → TopologyState → LifecycleState → Option LifecycleState
lifecycle_loop zero h tip chain topo life = none
lifecycle_loop (suc fuel) h tip chain topo life = elim (leb h tip) [
  | true ↦
      let topo' = derive_step chain h topo in
      elim (advance_lifecycle life topo.n_n topo'.n_n h) [
        | none ↦ none
        | some next ↦ lifecycle_loop fuel (u32 (h + obs_window)) tip chain topo' next
      ]
  | false ↦ some life
]

pub expected_lifecycle_from_chain : List CommittedBlock → ℕ → Option LifecycleState
expected_lifecycle_from_chain chain tip_height =
    let tip = if ltb (length chain) tip_height then length chain else tip_height in
    lifecycle_loop loop_rounds obs_window tip chain genesis lifecycle_genesis
