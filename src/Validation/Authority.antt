-- ===== src/Validation/Authority.antt =====
-- What the execution hook accepts, through the whole derivation from the chain.
use Prim.Native.String.{String}
use litenyx.Common.{
  ◌+◌, ℕ, suc, ◌^◌, ◌<◌, ◌≡◌, ◌≢◌, ◌↔◌, refl, ◌∙◌, ap, sym, Bool, true, false, Option, none, some,
  List, [], ◌∷◌, ◌++◌, arith, length, length-append,
}
use litenyx.Authority.{CommittedBlock, genesis, expected_topology_from_chain}
use litenyx.Authority.Activation.{
  pre_derivation, hard_authority, regime_at, execution_activation_for_network,
}
use litenyx.Topology.{obs_window}
use litenyx.Lifecycle.{expected_lifecycle_from_chain, LifecycleState}
use litenyx.Lifecycle.Chain.{expected_lifecycle_from_chain_total}
use litenyx.Lifecycle.Coherence.{IsCoherent}
use litenyx.Execution.Decision.{resolve_for_lane_lem}
use litenyx.Spend.{World, connect_shared_state}
use litenyx.Validation.{
  NyxBlock, BlockIndex, next_height, accepted, CheckResult, committed, read_bodies,
  check_aux_header, check_topology_commitment, check_lifecycle_commitment,
  check_execution_authority, execution_decision, connect_hooks, after_aux, then_check, spend_result,
  rejected,
}

hard_is_late : hard_authority ≢ pre_derivation
hard_is_late = λ e. cc

length-read_bodies :
    (bodies : List (Option NyxBlock)) (chain : List CommittedBlock)
    → read_bodies bodies ≡ some chain
    → length chain ≡ length bodies
unfolding read_bodies
length-read_bodies [] chain e = let k : [] ≡ chain = cc in sym (ap length k)
length-read_bodies (none ∷ bodies) chain e = cc
length-read_bodies (some b ∷ bodies) chain e =
    go (length-read_bodies bodies) (read_bodies bodies) refl e
  where
    go :
        ((below : List CommittedBlock)
          → read_bodies bodies ≡ some below
          → length below ≡ length bodies)
        → (o : Option (List CommittedBlock)) → read_bodies bodies ≡ o
        → elim o as (λ _. Option (List CommittedBlock)) [
          | none ↦ none
          | some below ↦ some (committed b ∷ below)
        ]
          ≡ some chain
        → length chain ≡ suc (length bodies)
    go rec none q h = cc
    go rec (some below) q h =
        let k : committed b ∷ below ≡ chain = cc in sym (ap length k) ∙ ap suc (rec below q)

-- Under a lifecycle state that is coherent for `n` lanes, hard authority accepts the lanes below `n`.
decision_iff :
    (b : NyxBlock) (l : LifecycleState) (n height : ℕ) (o : Option LifecycleState)
    → IsCoherent l n
    → o ≡ some l
    → (execution_decision hard_authority b height o ≡ accepted) ↔ (b.nyx_aux.chain_id < n)
decision_iff b l n height o coh e =
    let a = resolve_for_lane_lem l n b.nyx_aux.chain_id height hard_authority coh hard_is_late in
    rw (e, a.code) (ground arith)

-- Under hard authority, with all bodies below the block readable, and at a height more than
-- 100 below 2^32, where the height of the derivation's loop does not wrap, the execution hook accepts the block
-- exactly if its lane is below the number of lanes that the topology derivation gives at its height.
pub check_execution_authority_iff :
    (b : NyxBlock) (prev : BlockIndex) (net_id : String) (chain : List CommittedBlock)
    → regime_at (execution_activation_for_network net_id) (next_height (some prev)) ≡ hard_authority
    → read_bodies prev.bodies ≡ some chain
    → next_height (some prev) + obs_window < 2 ^ 32
    → (check_execution_authority b (some prev) net_id ≡ accepted) ↔ (
        b.nyx_aux.chain_id
        < (expected_topology_from_chain genesis
            (chain ++ committed b ∷ [])
            (next_height (some prev))).n_n)
unfolding check_execution_authority
check_execution_authority_iff b prev net_id chain r e lt =
    let all = chain ++ committed b ∷ [] in
    let h = next_height (some prev) in
    let n = length-read_bodies prev.bodies chain e in
    let (out, s, coh, _) =
      expected_lifecycle_from_chain_total all h
        (omega (arith, length-append chain (committed b ∷ []))) in
    rw (r, e)
      (decision_iff b out (expected_topology_from_chain genesis all h).n_n h
        (expected_lifecycle_from_chain all h) coh s)

then_check_iff :
    (a c : CheckResult) → (then_check a c ≡ accepted) ↔ ((a ≡ accepted) × (c ≡ accepted))
then_check_iff accepted c = (λ e. (refl, e), λ (_, e). e)
then_check_iff (rejected reason) c = (λ e. cc, λ (e, _). cc)

spend_result_iff : (s : Bool) → (spend_result s ≡ accepted) ↔ (s ≡ true)
spend_result_iff true = (λ e. refl, λ e. refl)
spend_result_iff false = (λ e. cc, λ e. cc)

-- A block passes all hooks exactly if it passes each of them: the four checks, and the spends, which
-- are staged on the world that the header check leaves as it is.
pub connect_hooks_iff :
    (w : World) (b : NyxBlock) (prev : Option BlockIndex) (net_id : String)
    → ((connect_hooks w b prev net_id).1 ≡ accepted) ↔ (
        (check_aux_header b prev net_id ≡ accepted)
        × ((connect_shared_state w (record { chain_id = b.nyx_aux.chain_id; vtx = b.vtx })).1
            ≡ true)
        × (check_topology_commitment b prev net_id ≡ accepted)
        × (check_lifecycle_commitment b prev net_id ≡ accepted)
        × (check_execution_authority b prev net_id ≡ accepted))
unfolding connect_hooks
connect_hooks_iff w b prev net_id = go (check_aux_header b prev net_id)
  where
    go :
        (a : CheckResult)
        → ((after_aux w b prev net_id a).1 ≡ accepted) ↔ (
            (a ≡ accepted)
            × ((connect_shared_state w (record { chain_id = b.nyx_aux.chain_id; vtx = b.vtx })).1
                ≡ true)
            × (check_topology_commitment b prev net_id ≡ accepted)
            × (check_lifecycle_commitment b prev net_id ≡ accepted)
            × (check_execution_authority b prev net_id ≡ accepted))
    go (rejected reason) = (λ e. cc, λ (e, _, _, _, _). cc)
    go accepted =
        let (f, g) =
          spend_result_iff
            (connect_shared_state w (record { chain_id = b.nyx_aux.chain_id; vtx = b.vtx })).1 in
        let (f1, g1) = then_check_iff _ _ in
        let (f2, g2) = then_check_iff (check_topology_commitment b prev net_id) _ in
        let (f3, g3) =
          then_check_iff (check_lifecycle_commitment b prev net_id)
            (check_execution_authority b prev net_id) in
        (
          λ e.
              let (s, r) = f1 e in let (t, r') = f2 r in let (l, x) = f3 r' in (refl, f s, t, l, x),
          λ (_, s, t, l, x). g1 (g s, g2 (t, g3 (l, x))),
        )
