-- ===== src/Verifier/Verdict.antt =====
-- The four predicates together, and which bits of the leaf index count.
use litenyx.Common.{
  ℕ, zero, suc, ◌+◌, ◌-◌, ◌*◌, ◌/◌, ◌%◌, ◌^◌, ◌≤◌, ◌<◌, ◌≡◌, refl, sym, ap, ◌∙◌, List, [], ◌∷◌,
  length, arith, ◌==◌,
}
use native.Mathlib.Nat.{add-mul-div_right, pow-succ', mul_left_comm, add-suc, one-le-pow}
use native.Mathlib.Numerals.{towards_suc}
use litenyx.Verifier.{bit, compute_leaf_hash, combine, climb, commitment_valid_g}

pow_shift : (j e : ℕ) → 2 ^ (suc e + j) ≡ (2 * 2 ^ e) * 2 ^ j
pow_shift zero e = simp towards_suc (omega arith)
pow_shift (suc j) e =
    let h = pow_shift j e in
    let a = pow-succ' 2 (suc e + j) in
    let b = pow-succ' 2 j in
    let c : 2 * ((2 * 2 ^ e) * 2 ^ j) ≡ (2 * 2 ^ e) * (2 * 2 ^ j) =
      mul_left_comm 2 (2 * 2 ^ e) (2 ^ j) in
    ap (λ (t : ℕ). 2 ^ t) (add-suc (suc e) j)
    ∙ (a ∙ (ap (λ (t : ℕ). 2 * t) h ∙ (c ∙ ap (λ (t : ℕ). (2 * 2 ^ e) * t) (sym b))))

bit-add : (d j i : ℕ) → j < d → bit j (i + 2 ^ d) ≡ bit j i
bit-add d j i h =
    let e : suc (d - j - 1) + j ≡ d = omega arith in
    let k = 2 ^ (d - j - 1) in
    let p : 2 ^ d ≡ (2 * k) * 2 ^ j = ap (λ (t : ℕ). 2 ^ t) (sym e) ∙ pow_shift j (d - j - 1) in
    let q : (i + 2 ^ d) / 2 ^ j ≡ i / 2 ^ j + 2 * k =
      rw p (add-mul-div_right i (2 * k) (one-le-pow j 2 (omega arith))) in
    let r : (i / 2 ^ j + 2 * k) % 2 ≡ i / 2 ^ j % 2 = omega arith in
    ap (λ (t : ℕ). t % 2 == 1) q ∙ ap (λ (t : ℕ). t == 1) r

climb-add :
    (sha256 : List ℕ → List ℕ) (d j i : ℕ) (z : List ℕ) (ss : List (List ℕ))
    → j + length ss ≤ d
    → climb sha256 (i + 2 ^ d) j z ss ≡ climb sha256 i j z ss
unfolding climb combine
climb-add sha256 d j i z [] h = refl
climb-add sha256 d j i z (s ∷ ss) h =
    rw (bit-add d j i (omega arith))
      (climb-add sha256 d (j + 1) i (combine sha256 i j z s) ss (omega arith))

-- A proof of `d_max` siblings is judged alike at two leaf indices that differ by 2 to the `d_max`.
pub commitment_valid_g_malleable :
    (sha256 : List ℕ → List ℕ) (root block_hash : List ℕ) (i d : ℕ) (ss : List (List ℕ))
    → length ss ≡ d
    → commitment_valid_g sha256 root block_hash
        (record { leaf_index = i + 2 ^ d; sibling_hashes = ss })
        d
      ≡ commitment_valid_g sha256 root block_hash (record { leaf_index = i; sibling_hashes = ss }) d
unfolding commitment_valid_g
commitment_valid_g_malleable sha256 root block_hash i d ss e =
    rw (climb-add sha256 d 0 i (compute_leaf_hash sha256 block_hash) ss (omega arith)) refl
