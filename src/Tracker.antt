-- ===== src/Tracker.antt =====
-- litenyx/LITENYX_topology_tracker.h and .cpp: the state that the daemon keeps around the topology
-- controller. The mutex is not modelled: an operation is one step.
pub mod Invariant
pub mod Rollback
pub mod Window
pub mod Feed
pub mod Growth
mod Tests
use litenyx.Common.{
  ℕ, zero, suc, ◌+◌, ◌-◌, ◌%◌, ◌^◌, Bool, true, false, not, ◌&&◌, Option, none, some, List, [], ◌∷◌,
  ltb, leb, ◌==◌, if◌then◌else◌, length, get_or, set, replicate,
}
use litenyx.Common.Int.{ℤ, pos, ltb_ℤ, ◌+ℤ◌, pos_part, neg_part, sub_ℕ, div_trunc, i32, i64}
use litenyx.Common.Words.{u32}
use litenyx.Params.{min_chains}
use litenyx.Topology.{
  topo_max_chains, obs_window, TopoDecision, hold, split, merge, ChainObservation, topo_decide,
  topo_apply, transition_height,
}

-- A height and the chain count recorded at it; the map's entries in the order of their heights.
abbrev pub Transitions : Type 0
Transitions = List (ℕ × ℕ)

pub record Tracker : Type 0 where
  pub n_chains : ℕ  -- uint8
  pub last_transition : ℕ  -- uint32
  pub transitions : Transitions
  pub sum_m : List ℤ  -- int64
  pub cnt_m : List ℕ  -- the bits of an int32

pub find : Transitions → ℕ → Option ℕ
find [] h = none
find ((k, v) ∷ m) h = if k == h then some v else find m h

-- `m[h] = v`: a new key is put before the first greater one.
pub insert : Transitions → ℕ → ℕ → Transitions
insert [] h v = (h, v) ∷ []
insert ((k, w) ∷ m) h v =
    let rest = insert m h v in
    if k == h then (k, v) ∷ m else if ltb h k then (h, v) ∷ (k, w) ∷ m else (k, w) ∷ rest

pub erase : Transitions → ℕ → Transitions
erase [] h = []
erase ((k, w) ∷ m) h = let rest = erase m h in if k == h then m else (k, w) ∷ rest

abbrev pub zeros_m : List ℤ
zeros_m = replicate topo_max_chains (pos 0)

abbrev pub zeros_cnt : List ℕ
zeros_cnt = replicate topo_max_chains 0

pub clear_window : Tracker → Tracker
clear_window t = record {
  n_chains = t.n_chains;
  last_transition = t.last_transition;
  transitions = t.transitions;
  sum_m = zeros_m;
  cnt_m = zeros_cnt;
}

abbrev pub new_tracker : Tracker
new_tracker = record {
  n_chains = min_chains;
  last_transition = 0;
  transitions = [];
  sum_m = zeros_m;
  cnt_m = zeros_cnt;
}

-- It sets every field anew, whatever the state was.
pub reset : Tracker → Tracker
unfolding clear_window
reset t = clear_window (record {
  n_chains = min_chains;
  last_transition = 0;
  transitions = [];
  sum_m = t.sum_m;
  cnt_m = t.cnt_m;
})

-- `m_sumM[chainId] += Mc` and `m_cntM[chainId] += 1`, which wrap where they overflow.
pub add_sum : List ℤ → ℕ → ℤ → List ℤ
add_sum sums c mc = set sums c (i64 (get_or sums c (pos 0) +ℤ mc))

pub add_cnt : List ℕ → ℕ → List ℕ
add_cnt cnts c = set cnts c (u32 (get_or cnts c 0 + 1))

-- The two vectors are made eight long again where they are shorter.
pub accumulate : Tracker → ℕ → ℤ → Tracker
accumulate t chain_id mc =
    let sums = if ltb (length t.sum_m) topo_max_chains then zeros_m else t.sum_m in
    let cnts = if ltb (length t.cnt_m) topo_max_chains then zeros_cnt else t.cnt_m in
    if leb topo_max_chains chain_id then t else record {
      n_chains = t.n_chains;
      last_transition = t.last_transition;
      transitions = t.transitions;
      sum_m = add_sum sums chain_id mc;
      cnt_m = add_cnt cnts chain_id;
    }

-- std::max(0, std::min(100, mc))
abbrev pub clamp_pressure : ℤ → ℤ
clamp_pressure mc = if ltb_ℤ (pos 100) mc then pos 100 else if ltb_ℤ mc (pos 0) then pos 0 else mc

pub observe_chain : Tracker → ℕ → ChainObservation
observe_chain t c =
    let cnt = get_or t.cnt_m c 0 in
    record {
      m_c = clamp_pressure (
          if ltb 0 cnt && ltb cnt (2 ^ 31)
          then i32 (div_trunc (get_or t.sum_m c (pos 0)) cnt)
          else pos 0);
    }

-- The chains c, c + 1, ... of the loop, `left` of them.
pub observe_loop : Tracker → ℕ → ℕ → List ChainObservation
observe_loop t c zero = []
observe_loop t c (suc left) = observe_chain t c ∷ observe_loop t (c + 1) left

pub observations : Tracker → List ChainObservation
observations t = observe_loop t 0 t.n_chains

pub transition : Tracker → ℕ → ℕ → Tracker
transition t th new_n = record {
  n_chains = new_n;
  last_transition = th;
  transitions = insert t.transitions th new_n;
  sum_m = t.sum_m;
  cnt_m = t.cnt_m;
}

abbrev pub act : Tracker → ℕ → TopoDecision → Tracker
act t h_obs hold = t
act t h_obs split = transition t (transition_height h_obs) (topo_apply t.n_chains split)
act t h_obs merge = transition t (transition_height h_obs) (topo_apply t.n_chains merge)

pub finalize : Tracker → ℕ → Tracker
finalize t h_obs = act t h_obs (topo_decide (observations t) t.n_chains h_obs t.last_transition)

pub connect : Tracker → ℕ → ℕ → ℤ → Tracker
connect t chain_id height mc =
    let t1 = accumulate t chain_id mc in if height % obs_window == 0 then finalize t1 height else t1

-- The two loops of `Disconnect` over the map.
pub prev_chains : ℕ → Transitions → ℕ → ℕ
prev_chains prev [] height = prev
prev_chains prev ((k, v) ∷ m) height = prev_chains (if ltb k height then v else prev) m height

pub prev_height : ℕ → Transitions → ℕ → ℕ
prev_height last [] height = last
prev_height last ((k, v) ∷ m) height =
    prev_height (if ltb k height && ltb last k then k else last) m height

-- The reversal of the transition recorded at the height.
pub roll_back : Tracker → ℕ → Tracker
roll_back t height = record {
  n_chains = prev_chains min_chains t.transitions height;
  last_transition = prev_height 0 t.transitions height;
  transitions = erase t.transitions height;
  sum_m = t.sum_m;
  cnt_m = t.cnt_m;
}

-- The chain and the pressure are not used.
pub disconnect : Tracker → ℕ → ℕ → ℤ → Tracker
disconnect t chain_id height mc = elim (find t.transitions height) [
  | none ↦ t
  | some v ↦ roll_back t height
]

pub observe : Tracker → ℕ → ℤ → Tracker
observe t chain_id mc = accumulate t chain_id mc

pub tick : Tracker → ℕ → Tracker
tick t height = clear_window (finalize t height)
