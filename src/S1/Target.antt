-- ===== src/S1/Target.antt =====
-- The range of the counterfactual target along any run, and what the deadband holds.
use litenyx.Common.{◌≡◌, refl, Bool, true, false, List, [], ◌∷◌, arith, All, if◌then◌else◌, ◌&&◌}
use litenyx.Common.Int.{ℤ, ◌*ℤ◌, div_trunc, i64, ◌≤ℤ◌}
use litenyx.S1.{
  EconProfile, p0_null_control, p1_linear, p2_saturating, p3_hysteretic, EconParams,
  HysteresisState, wallet_deviation, recompute, in_deadband, clamp_t, h1_qw, phi_factor, emitted,
  t_econ_by, compute_t_econ, effective_target,
}

abbrev pub Within : EconParams → ℤ → Type 0
Within p te = (p.t_min_cf ≤ℤ te) × (te ≤ℤ p.t_max_cf)

clamp_t-Within : (p : EconParams) (te : ℤ) → p.t_min_cf ≤ℤ p.t_max_cf → Within p (clamp_t p te)
clamp_t-Within p te h = ground arith

-- A state that no step has set, or one whose target is in range.
abbrev pub IsKept : EconParams → HysteresisState → Type 0
IsKept p hs = hs.initialized ≡ true → Within p hs.last_t_econ

-- A run over observations of the wallets: the targets emitted, in order, and the last state.
pub t_econs : List (ℤ × ℤ) → EconParams → HysteresisState → List ℤ
t_econs [] p hs = []
t_econs ((w, ws) ∷ obs) p hs = let (te, hs1) = compute_t_econ w ws p hs in te ∷ t_econs obs p hs1

emitted-Within :
    (p : EconParams) (te : ℤ) → Within p te → Within p (emitted te).0 × IsKept p (emitted te).1
emitted-Within p te w = (w, λ _. w)

recompute-Within :
    (e : ℤ) (p : EconParams)
    → p.t_min_cf ≤ℤ p.t_max_cf
    → Within p (emitted (recompute e p)).0 × IsKept p (emitted (recompute e p)).1
recompute-Within e p h = emitted-Within p (recompute e p) (
    unfold recompute in
    clamp_t-Within p (div_trunc (i64 (p.t_ref *ℤ phi_factor e p.profile p.k)) h1_qw) h)

held-Within :
    (b : Bool) (p : EconParams) (hs : HysteresisState) (r : ℤ × HysteresisState)
    → (b ≡ true → Within p hs.last_t_econ)
    → IsKept p hs
    → Within p r.0 × IsKept p r.1
    → Within p (if b then (hs.last_t_econ, hs) else r).0
      × IsKept p (if b then (hs.last_t_econ, hs) else r).1
held-Within true p hs r v k w = (v refl, k)
held-Within false p hs r v k w = w

t_econ_by-Within :
    (f : EconProfile) (e : ℤ) (p : EconParams) (hs : HysteresisState)
    → p.t_min_cf ≤ℤ p.t_max_cf
    → IsKept p hs
    → Within p (t_econ_by f e p hs).0 × IsKept p (t_econ_by f e p hs).1
t_econ_by-Within p0_null_control e p hs h k = emitted-Within p p.t_max_cf (h, omega arith)
t_econ_by-Within p1_linear e p hs h k = recompute-Within e p h
t_econ_by-Within p2_saturating e p hs h k = recompute-Within e p h
t_econ_by-Within p3_hysteretic e p hs h k =
    held-Within (hs.initialized && in_deadband e p) p hs (emitted (recompute e p))
      (λ b. k (ground arith)) k (recompute-Within e p h)

-- Along any run over observations of the wallets, from a state that no step has set or one whose target
-- is in range, under every profile, each target emitted lies between the two bounds, and the target
-- taken with it is at most the time target and at most the emitted one.
pub t_econs-Within :
    (obs : List (ℤ × ℤ)) (p : EconParams) (hs : HysteresisState) (t_time : ℤ)
    → p.t_min_cf ≤ℤ p.t_max_cf
    → IsKept p hs
    → All
        (λ te.
          Within p te × (effective_target t_time te ≤ℤ t_time) × (effective_target t_time te ≤ℤ te))
        (t_econs obs p hs)
unfolding t_econs effective_target
t_econs-Within [] p hs t_time h k = tt
t_econs-Within ((w, ws) ∷ obs) p hs t_time h k =
    let (v, k1) = t_econ_by-Within p.profile (wallet_deviation w ws) p hs h k in
    (
      (unfold compute_t_econ in v, ground arith, ground arith),
      t_econs-Within obs p (compute_t_econ w ws p hs).1 t_time h (unfold compute_t_econ in k1),
    )
