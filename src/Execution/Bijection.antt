-- ===== src/Execution/Bijection.antt =====
-- The lookups of litenyx/LITENYX_execution_authority.h and LITENYX_draining_authority.h by lane and by
-- chain identity, one against the other.
use litenyx.Common.{
  ℕ, ◌+◌, ◌≤◌, ◌<◌, ◌≡◌, ◌↔◌, refl, none, some, List, [], ◌∷◌, ◌==◌, length, arith, Bool-cases, inl,
  inr,
}
use litenyx.Lifecycle.{ChainIdBinding, LifecycleState, lane_of}
use litenyx.Lifecycle.Coherence.{LanesFrom, Differs, Distinct, IsCoherent}
use litenyx.Execution.{chain_at}

chain_at-below :
    (i lane : ℕ) (bs : List ChainIdBinding) → LanesFrom i bs → lane < i → chain_at lane bs ≡ none
unfolding chain_at
chain_at-below i lane [] h lt = refl
chain_at-below i lane (b ∷ bs) h lt =
    let ih = chain_at-below (i + 1) lane bs h.1 (omega arith) in let e = h.0 in ground arith

lane_of-Differs : (c : ℕ) (bs : List ChainIdBinding) → Differs c bs → lane_of c bs ≡ none
unfolding lane_of
lane_of-Differs c [] h = refl
lane_of-Differs c (b ∷ bs) h = let ih = lane_of-Differs c bs h.1 in let ne = h.0 in ground arith

-- The bindings at `i` and above, cut to one statement for the induction.
inverse :
    (i c lane : ℕ) (bs : List ChainIdBinding)
    → LanesFrom i bs
    → Distinct bs
    → (lane_of c bs ≡ some lane) ↔ (chain_at lane bs ≡ some c)
unfolding lane_of chain_at
inverse i c lane [] h d = (λ e. cc, λ e. cc)
inverse i c lane (b ∷ bs) (e, h) (ne, d) =
    let ih = inverse (i + 1) c lane bs h d in
    let absent = lane_of-Differs b.chain_id bs ne in
    let below = chain_at-below (i + 1) b.lane_id bs h (omega arith) in
    (λ f. ground (arith, ih.0), λ f. ground (arith, ih.1))

-- In a coherent state a chain identity has a lane exactly if that lane has the identity: lanes and
-- active identities correspond one to one.
pub lane_of-chain_at :
    (l : LifecycleState) (n c lane : ℕ)
    → IsCoherent l n
    → (lane_of c l.active_bindings ≡ some lane) ↔ (chain_at lane l.active_bindings ≡ some c)
lane_of-chain_at l n c lane k = inverse 0 c lane l.active_bindings k.lanes k.distinct

chain_at-some :
    (i lane : ℕ) (bs : List ChainIdBinding)
    → LanesFrom i bs
    → i ≤ lane
    → lane < i + length bs
    → (c : ℕ) × (chain_at lane bs ≡ some c)
unfolding chain_at
chain_at-some i lane [] h lo hi = absurd (omega arith)
chain_at-some i lane (b ∷ bs) h lo hi = elim (Bool-cases (b.lane_id == lane)) [
  | inl e ↦ (b.chain_id, rw e refl)
  | inr ne ↦
      let (c, f) = chain_at-some (i + 1) lane bs h.1 (let g = h.0 in ground arith) (omega arith) in
      (c, rw ne f)
]

chain_at-none :
    (i lane : ℕ) (bs : List ChainIdBinding)
    → LanesFrom i bs
    → i + length bs ≤ lane
    → chain_at lane bs ≡ none
unfolding chain_at
chain_at-none i lane [] h le = refl
chain_at-none i lane (b ∷ bs) h le =
    let ih = chain_at-none (i + 1) lane bs h.1 (omega arith) in let e = h.0 in ground arith

-- The lanes of a coherent state for `n` chains are those below `n`.
pub chain_at_lanes :
    (l : LifecycleState) (n lane : ℕ)
    → IsCoherent l n
    → (lane < n → (c : ℕ) × (chain_at lane l.active_bindings ≡ some c))
      × (n ≤ lane → chain_at lane l.active_bindings ≡ none)
chain_at_lanes l n lane k = (
  λ lt. chain_at-some 0 lane l.active_bindings k.lanes (omega arith) (omega (arith, k.count)),
  λ le. chain_at-none 0 lane l.active_bindings k.lanes (omega (arith, k.count)),
)
