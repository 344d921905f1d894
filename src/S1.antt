-- ===== src/S1.antt =====
-- cpp_reference/s1/litenyx_h1_pow_target.h and litenyx_h1_candidate_policy.h: the counterfactual target
-- and the candidate policies. The result of an int64 operation wraps where it overflows.
pub mod Target
pub mod Monotone
pub mod Reward
mod Tests
use litenyx.Common.{
  ℕ, zero, suc, ◌+◌, ◌^◌, Bool, true, ◌&&◌, List, [], ◌∷◌, map, ltb, ◌==◌, if◌then◌else◌, length,
  get_or,
}
use litenyx.Common.Int.{ℤ, pos, negsuc, ltb_ℤ, ◌+ℤ◌, ◌-ℤ◌, ◌*ℤ◌, neg_part, pos_part, div_trunc, i64}
use litenyx.Authority.{TopologyState}
use litenyx.Topology.{topo_max_chains}

abbrev pub h1_qw : ℕ
h1_qw = 1_000_000

pub data EconProfile : Type 0 where
  p0_null_control p1_linear p2_saturating p3_hysteretic : EconProfile

-- The fields that the computation reads.
pub record EconParams : Type 0 where
  pub profile : EconProfile
  pub t_ref : ℤ
  pub t_min_cf : ℤ
  pub t_max_cf : ℤ
  pub k : ℤ
  pub deadband : ℤ

pub record HysteresisState : Type 0 where
  pub last_t_econ : ℤ
  pub initialized : Bool

-- `denom` is W_t_star where that is positive, else 1.
abbrev pub denom_of : ℤ → ℕ
denom_of (pos zero) = 1
denom_of (pos (suc n)) = suc n
denom_of (negsuc n) = 1

pub wallet_deviation : ℤ → ℤ → ℤ
wallet_deviation w_t w_t_star =
    div_trunc (i64 (i64 (w_t -ℤ w_t_star) *ℤ pos h1_qw)) (denom_of w_t_star)

-- `num / denom`, and 0 where the denominator is.
abbrev pub div_signed : ℤ → ℤ → ℤ
div_signed num (pos zero) = pos 0
div_signed num (pos (suc d)) = div_trunc num (suc d)
div_signed num (negsuc d) = pos 0 -ℤ div_trunc num (suc d)

abbrev abs_i64 : ℤ → ℤ
abs_i64 e = if ltb_ℤ e (pos 0) then i64 (pos 0 -ℤ e) else e

pub phi_factor : ℤ → EconProfile → ℤ → ℤ
phi_factor e p1_linear k = i64 (pos h1_qw +ℤ div_trunc (i64 (k *ℤ e)) h1_qw)
phi_factor e p3_hysteretic k = i64 (pos h1_qw +ℤ div_trunc (i64 (k *ℤ e)) h1_qw)
phi_factor e p2_saturating k =
    i64 (pos h1_qw +ℤ div_signed (i64 (k *ℤ e)) (i64 (pos h1_qw +ℤ abs_i64 e)))
phi_factor e p0_null_control k = pos h1_qw

-- The two clamps, the lower one first.
abbrev pub clamp_t : EconParams → ℤ → ℤ
clamp_t p te =
    let low = if ltb_ℤ te p.t_min_cf then p.t_min_cf else te in
    if ltb_ℤ p.t_max_cf low then p.t_max_cf else low

pub recompute : ℤ → EconParams → ℤ
recompute e p = clamp_t p (div_trunc (i64 (p.t_ref *ℤ phi_factor e p.profile p.k)) h1_qw)

pub in_deadband : ℤ → EconParams → Bool
in_deadband e p = ltb_ℤ (i64 (pos 0 -ℤ p.deadband)) e && ltb_ℤ e p.deadband

abbrev pub emitted : ℤ → ℤ × HysteresisState
emitted te = (te, record { last_t_econ = te; initialized = true })

-- The branches of the profiles, at a deviation.
abbrev pub t_econ_by : EconProfile → ℤ → EconParams → HysteresisState → ℤ × HysteresisState
t_econ_by p0_null_control e p hs = emitted p.t_max_cf
t_econ_by p1_linear e p hs = emitted (recompute e p)
t_econ_by p2_saturating e p hs = emitted (recompute e p)
t_econ_by p3_hysteretic e p hs =
    if hs.initialized && in_deadband e p then (hs.last_t_econ, hs) else emitted (recompute e p)

-- The result, and the state that the reference parameter holds afterwards.
unfoldable pub compute_t_econ : ℤ → ℤ → EconParams → HysteresisState → ℤ × HysteresisState
compute_t_econ w_t w_t_star p hs = t_econ_by p.profile (wallet_deviation w_t w_t_star) p hs

pub effective_target : ℤ → ℤ → ℤ
effective_target t_time_sim t_econ = if ltb_ℤ t_econ t_time_sim then t_econ else t_time_sim

pub record CanonicalSnapshot : Type 0 where
  pub height : ℕ  -- uint32
  pub n : ℕ  -- uint8
  pub last_transition : ℕ  -- uint32
  pub p_t : ℤ
  pub n_t : ℤ
  pub w_t : ℤ
  pub w_t_star : ℤ

pub floor_div : ℤ → ℕ → ℤ
floor_div num zero = pos 0
floor_div num (suc d) = div_trunc num (suc d)

pub record GeometricReward : Type 0 where
  pub r_base : ℤ
  pub n_h : ℕ
  pub r_c : List ℤ
  pub f_c : List ℤ
  pub g_c : List ℤ

-- One round of the loop, at lane c: the three values pushed.
pub lane_reward : ℤ → ℕ → ℤ
lane_reward r_base c = floor_div r_base (2 ^ c)

abbrev pub lane_fee : List ℤ → ℕ → ℤ
lane_fee fees c = if ltb c (length fees) then get_or fees c (pos 0) else pos 0

-- The lanes that the loop visits, from c on: it ends at `n_h` and after `left` rounds.
pub lanes : ℕ → ℕ → ℕ → List ℕ
lanes n_h c zero = []
lanes n_h c (suc left) = let rest = lanes n_h (c + 1) left in if ltb c n_h then c ∷ rest else []

pub lane_gross : ℤ → List ℤ → ℕ → ℤ
unfolding lane_reward
lane_gross r_base fees c = lane_reward r_base c +ℤ lane_fee fees c

pub evaluate_reward : ℤ → ℕ → List ℤ → GeometricReward
unfolding lane_gross
evaluate_reward r_base n_h fees =
    let cs = lanes n_h 0 topo_max_chains in
    record {
      r_base = r_base;
      n_h = n_h;
      r_c = map (lane_reward r_base) cs;
      f_c = map (lane_fee fees) cs;
      g_c = map (lane_gross r_base fees) cs;
    }

pub record NegativeSupply : Type 0 where
  pub delta_s_t : ℤ
  pub e_t : ℤ
  pub e_bar_t : ℤ

pub evaluate_supply : ℤ → ℤ → ℤ → ℤ → ℤ → ℤ → NegativeSupply
evaluate_supply p n w ws prev_ebar alpha =
    let e = i64 (w -ℤ ws) in
    record {
      delta_s_t = i64 (p -ℤ n);
      e_t = e;
      e_bar_t =
          div_trunc (i64 (i64 (alpha *ℤ e) +ℤ i64 (i64 (pos 1000 -ℤ alpha) *ℤ prev_ebar))) 1000;
    }

pub record CandidatePolicyResult : Type 0 where
  pub reward : GeometricReward
  pub neg_supply : NegativeSupply
  pub authoritative_n_h : ℕ

pub evaluate_candidate_policy : CanonicalSnapshot → ℤ → List ℤ → ℤ → CandidatePolicyResult
evaluate_candidate_policy snap r_base fees alpha = record {
  reward = evaluate_reward r_base snap.n fees;
  neg_supply = evaluate_supply snap.p_t snap.n_t snap.w_t snap.w_t_star (pos 0) alpha;
  authoritative_n_h = snap.n;
}

pub from_topology_state : TopologyState → ℤ → ℤ → ℤ → ℤ → CanonicalSnapshot
from_topology_state s p n w ws = record {
  height = s.n_height;
  n = s.n_n;
  last_transition = s.n_last_transition;
  p_t = p;
  n_t = n;
  w_t = w;
  w_t_star = ws;
}
