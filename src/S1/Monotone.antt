-- ===== src/S1/Monotone.antt =====
-- The order that the linear profile keeps.
use native.Mathlib.Nat.{
  mul-add, add-mul, mul-le-mul_left, mul-le-mul_right, div-mul-le_self, le-div_iff_mul-le, le_trans,
}
use litenyx.Common.{ℕ, zero, suc, ◌+◌, ◌*◌, ◌/◌, ◌≤◌, ◌<◌, ◌≡◌, ap, ◌∙◌, arith}
use litenyx.Common.Int.{
  ℤ, pos, negsuc, negate, sub_ℕ, ◌≤ℤ◌, ◌+ℤ◌, ◌-ℤ◌, ◌*ℤ◌, div_trunc, i64, i64_same, IsI64, pos_part,
  neg_part,
}
use litenyx.S1.{
  p1_linear, EconParams, HysteresisState, h1_qw, denom_of, wallet_deviation, phi_factor, recompute,
  compute_t_econ, clamp_t,
}

div_le : (n m d : ℕ) → 0 < d → n ≤ m → n / d ≤ m / d
div_le n m d h l = (le-div_iff_mul-le h).1 (le_trans (div-mul-le_self n d) l)

negate-le : (n : ℕ) (z : ℤ) → pos 0 ≤ℤ z → negate n ≤ℤ z
negate-le zero z h = h
negate-le (suc n) z h = omega arith

negate-anti : (n m : ℕ) → m ≤ n → negate n ≤ℤ negate m
negate-anti zero zero h = omega arith
negate-anti zero (suc m) h = absurd (omega arith)
negate-anti (suc n) zero h = omega arith
negate-anti (suc n) (suc m) h = omega arith

div-mono : (a b : ℤ) (d : ℕ) → 0 < d → a ≤ℤ b → div_trunc a d ≤ℤ div_trunc b d
div-mono (pos a) (pos b) d h l = let q = div_le a b d h (omega arith) in omega arith
div-mono (pos a) (negsuc b) d h l = absurd (omega arith)
div-mono (negsuc a) (pos b) d h l = negate-le (suc a / d) (pos (b / d)) (omega arith)
div-mono (negsuc a) (negsuc b) d h l =
    negate-anti (suc a / d) (suc b / d) (div_le (suc b) (suc a) d h (omega arith))

sub-mono : (a b c d : ℕ) → a + d ≤ c + b → sub_ℕ a b ≤ℤ sub_ℕ c d
sub-mono a b c d h = ground arith

mul-mono : (k : ℕ) (a b : ℤ) → a ≤ℤ b → (pos k *ℤ a) ≤ℤ (pos k *ℤ b)
mul-mono k a b l =
    let q : k * (pos_part a + neg_part b) ≤ k * (pos_part b + neg_part a) = mul-le-mul_left k l in
    let x = mul-add k (pos_part a) (neg_part b) in
    let y = mul-add k (pos_part b) (neg_part a) in sub-mono _ _ _ _ (omega arith)

mul_right-mono : (k : ℕ) (a b : ℤ) → a ≤ℤ b → (a *ℤ pos k) ≤ℤ (b *ℤ pos k)
mul_right-mono k a b l =
    let q : (pos_part a + neg_part b) * k ≤ (pos_part b + neg_part a) * k = mul-le-mul_right k l in
    let x = add-mul (pos_part a) (neg_part b) k in
    let y = add-mul (pos_part b) (neg_part a) k in sub-mono _ _ _ _ (omega arith)

denom-pos : (ws : ℤ) → 0 < denom_of ws
denom-pos (pos zero) = omega arith
denom-pos (pos (suc n)) = omega arith
denom-pos (negsuc n) = omega arith

clamp-mono : (p : EconParams) (a b : ℤ) → a ≤ℤ b → clamp_t p a ≤ℤ clamp_t p b
clamp-mono p a b l = ground arith

scaled-mono :
    (r : ℕ) (x y : ℤ)
    → x ≤ℤ y
    → div_trunc (pos r *ℤ (pos h1_qw +ℤ x)) h1_qw ≤ℤ div_trunc (pos r *ℤ (pos h1_qw +ℤ y)) h1_qw
scaled-mono r x y l =
    let u = pos h1_qw +ℤ x in
    let v = pos h1_qw +ℤ y in
    let q : u ≤ℤ v = sub-mono _ _ _ _ (omega arith) in
    div-mono (pos r *ℤ u) (pos r *ℤ v) h1_qw (omega arith) (mul-mono r u v q)

-- The deviation, the increment and the factor as integers without a bound.
abbrev ideal_deviation : ℤ → ℤ → ℤ
ideal_deviation w ws = div_trunc ((w -ℤ ws) *ℤ pos h1_qw) (denom_of ws)

abbrev ideal_factor : ℤ → ℤ → ℕ → ℤ
ideal_factor w ws k = pos h1_qw +ℤ div_trunc (pos k *ℤ ideal_deviation w ws) h1_qw

-- No int64 operation overflows on the way to the target, at a sensitivity and a reference target.
pub record NoOverflow (w ws : ℤ) (k r : ℕ) : Type 0 where
  pub difference : IsI64 (w -ℤ ws)
  pub scaled : IsI64 ((w -ℤ ws) *ℤ pos h1_qw)
  pub slope : IsI64 (pos k *ℤ ideal_deviation w ws)
  pub factor : IsI64 (ideal_factor w ws k)
  pub target : IsI64 (pos r *ℤ ideal_factor w ws k)

deviation_ideal :
    (w ws : ℤ) (k r : ℕ) → NoOverflow w ws k r → wallet_deviation w ws ≡ ideal_deviation w ws
unfolding wallet_deviation
deviation_ideal w ws k r n =
    ap (λ x. div_trunc (i64 (x *ℤ pos h1_qw)) (denom_of ws)) (i64_same (w -ℤ ws) n.difference)
    ∙ ap (λ x. div_trunc x (denom_of ws)) (i64_same ((w -ℤ ws) *ℤ pos h1_qw) n.scaled)

factor_ideal :
    (w ws : ℤ) (k r : ℕ)
    → NoOverflow w ws k r
    → phi_factor (wallet_deviation w ws) p1_linear (pos k) ≡ ideal_factor w ws k
unfolding phi_factor
factor_ideal w ws k r n =
    ap (λ x. i64 (pos h1_qw +ℤ div_trunc (i64 (pos k *ℤ x)) h1_qw)) (deviation_ideal w ws k r n)
    ∙ ap (λ x. i64 (pos h1_qw +ℤ div_trunc x h1_qw))
        (i64_same (pos k *ℤ ideal_deviation w ws) n.slope)
    ∙ i64_same (ideal_factor w ws k) n.factor

-- The target of the linear profile, where nothing overflows.
target_ideal :
    (w ws : ℤ) (p : EconParams) (hs : HysteresisState) (k r : ℕ)
    → p.profile ≡ p1_linear
    → p.k ≡ pos k
    → p.t_ref ≡ pos r
    → NoOverflow w ws k r
    → (compute_t_econ w ws p hs).0 ≡ clamp_t p (div_trunc (pos r *ℤ ideal_factor w ws k) h1_qw)
unfolding compute_t_econ recompute
target_ideal w ws p hs k r ep ek er n =
    rw (ep, ek, er)
      (ap (λ x. clamp_t p (div_trunc (i64 (pos r *ℤ x)) h1_qw)) (factor_ideal w ws k r n)
        ∙ ap (λ x. clamp_t p (div_trunc x h1_qw))
            (i64_same (pos r *ℤ ideal_factor w ws k) n.target))

deviation-mono : (v w ws : ℤ) → v ≤ℤ w → ideal_deviation v ws ≤ℤ ideal_deviation w ws
deviation-mono v w ws l =
    div-mono ((v -ℤ ws) *ℤ pos h1_qw) ((w -ℤ ws) *ℤ pos h1_qw) (denom_of ws) (denom-pos ws)
      (mul_right-mono h1_qw (v -ℤ ws) (w -ℤ ws) (sub-mono _ _ _ _ (omega arith)))

-- Under the linear profile, with a sensitivity and a reference target that are not negative, and where no
-- int64 operation overflows at either number of wallets, more wallets never give a smaller target, at the
-- same wallet target and whatever the kept states are.
pub compute_t_econ-mono :
    (v w ws : ℤ) (p : EconParams) (hs gs : HysteresisState) (k r : ℕ)
    → p.profile ≡ p1_linear
    → p.k ≡ pos k
    → p.t_ref ≡ pos r
    → NoOverflow v ws k r
    → NoOverflow w ws k r
    → v ≤ℤ w
    → (compute_t_econ v ws p hs).0 ≤ℤ (compute_t_econ w ws p gs).0
compute_t_econ-mono v w ws p hs gs k r ep ek er nv nw l =
    let e = ideal_deviation v ws in
    let f = ideal_deviation w ws in
    let x = div_trunc (pos k *ℤ e) h1_qw in
    let y = div_trunc (pos k *ℤ f) h1_qw in
    let g : x ≤ℤ y =
      div-mono (pos k *ℤ e) (pos k *ℤ f) h1_qw (omega arith)
        (mul-mono k e f (deviation-mono v w ws l)) in
    rw (target_ideal v ws p hs k r ep ek er nv, target_ideal w ws p gs k r ep ek er nw)
      (clamp-mono p (div_trunc (pos r *ℤ (pos h1_qw +ℤ x)) h1_qw)
        (div_trunc (pos r *ℤ (pos h1_qw +ℤ y)) h1_qw) (scaled-mono r x y g))
