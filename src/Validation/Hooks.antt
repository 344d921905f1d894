-- ===== src/Validation/Hooks.antt =====
-- What the hooks for the header and for the two commitments accept.
use Prim.Native.String.{String}
use litenyx.Common.{
  ℕ, ◌<◌, ◌≡◌, ◌↔◌, refl, ◌∙◌, Bool, true, false, Option, none, some, List, arith, ◌&&◌, ap,
}
use litenyx.Common.Int.{pos, ◌≤ℤ◌}
use litenyx.Params.{max_chains, shared_state_height_for_network}
use litenyx.AuxHeader.{has_known_magic, has_topology_commitment, has_lifecycle_commitment}
use litenyx.Authority.{CommittedBlock, genesis, expected_topology_from_chain}
use litenyx.Authority.Activation.{
  TopoRegime, pre_derivation, soft_advisory, hard_authority, regime_at, topo_activation_for_network,
  chain_id_activation_for_network,
}
use litenyx.Lifecycle.{lifecycle_genesis, expected_lifecycle_from_chain, LifecycleState}
use litenyx.Commitment.{
  same_bytes, same_bytes_iff, verdict_at, expected_topology_commitment,
  expected_lifecycle_commitment, verify_topology_commitment, verify_lifecycle_commitment,
}
use litenyx.Validation.{
  NyxBlock, BlockIndex, next_height, accepted, RejectReason, on_verdict, topo_commit_invalid,
  topo_commit_premature, lifecycle_commit_invalid, lifecycle_commit_premature, check_aux_header,
  build_canonical_blocks, topology_at, topology_result, check_topology_commitment, lifecycle_at,
  lifecycle_result, lifecycle_verdict, check_lifecycle_commitment,
}

-- The verdict on one commitment, for any reason that it may be rejected for.
module _ (reason : RejectReason) (has : Bool) (c e : List ℕ) where
  pre_verdict :
      (on_verdict reason (verdict_at pre_derivation has (has && same_bytes c e)) ≡ accepted)
      ↔ (has ≡ false)
  pre_verdict = ground arith

  soft_verdict : on_verdict reason (verdict_at soft_advisory has (has && same_bytes c e)) ≡ accepted
  soft_verdict = ground arith

  hard_verdict :
      (on_verdict reason (verdict_at hard_authority has (has && same_bytes c e)) ≡ accepted)
      ↔ ((has ≡ true) × (c ≡ e))
  hard_verdict = let s = same_bytes_iff c e in ground arith

-- From the activation height on, a header with a known magic is accepted exactly if its reserved
-- field is zero, its chain id is below 2, and its anchor is the hash of the previous block.
pub check_aux_header_iff :
    (b : NyxBlock) (prev : BlockIndex) (net_id : String)
    → shared_state_height_for_network net_id ≤ℤ pos (next_height (some prev))
    → has_known_magic b.nyx_aux ≡ true
    → (check_aux_header b (some prev) net_id ≡ accepted) ↔ (
        (b.nyx_aux.reserved ≡ 0)
        × (b.nyx_aux.chain_id < max_chains)
        × (b.nyx_aux.aux_anchor ≡ prev.block_hash))
unfolding check_aux_header
check_aux_header_iff b prev net_id h k =
    let s = same_bytes_iff b.nyx_aux.aux_anchor prev.block_hash in ground arith

-- What the regime asks of the topology commitment of a block: none before the derivation begins; from
-- then on the blocks below must be readable, and under hard authority the commitment must be present
-- and be the hash of the state that they determine.
abbrev pub TopologyAsked : TopoRegime → NyxBlock → Option BlockIndex → Type 0
TopologyAsked pre_derivation b prev = has_topology_commitment b.nyx_aux ≡ false
TopologyAsked soft_advisory b prev =
    (chain : List CommittedBlock) × (build_canonical_blocks b prev ≡ some chain)
TopologyAsked hard_authority b prev =
    (chain : List CommittedBlock) × (build_canonical_blocks b prev ≡ some chain)
    × (has_topology_commitment b.nyx_aux ≡ true)
    × (b.nyx_aux.topology_commitment
        ≡ expected_topology_commitment
            (expected_topology_from_chain genesis chain (next_height prev)))

-- Under each regime from the soft one on, with the blocks read or not.
soft_topology_iff :
    (b : NyxBlock) (h : ℕ) (o : Option (List CommittedBlock))
    → (topology_result soft_advisory b h o ≡ accepted)
      ↔ ((chain : List CommittedBlock) × (o ≡ some chain))
unfolding verify_topology_commitment
soft_topology_iff b h none = (λ e. cc, λ (c, e). cc)
soft_topology_iff b h (some chain) = (
  λ e. (chain, refl),
  λ e. soft_verdict _ (has_topology_commitment b.nyx_aux) b.nyx_aux.topology_commitment _,
)

hard_topology_iff :
    (b : NyxBlock) (h : ℕ) (o : Option (List CommittedBlock))
    → (topology_result hard_authority b h o ≡ accepted) ↔ (
        (chain : List CommittedBlock) × (o ≡ some chain)
        × (has_topology_commitment b.nyx_aux ≡ true)
        × (b.nyx_aux.topology_commitment
            ≡ (expected_topology_commitment (expected_topology_from_chain genesis chain h))))
unfolding verify_topology_commitment
hard_topology_iff b h none = (λ e. cc, λ (c, e, _, _). cc)
hard_topology_iff b h (some chain) =
    let (f, g) =
      hard_verdict topo_commit_invalid (has_topology_commitment b.nyx_aux)
        b.nyx_aux.topology_commitment
        (expected_topology_commitment (expected_topology_from_chain genesis chain h)) in
    (
      λ e. let (t, q) = f e in (chain, refl, t, q),
      λ (c, e, t, q).
          let k : c ≡ chain = cc in
          g (
            t,
            q ∙ ap (λ x. expected_topology_commitment (expected_topology_from_chain genesis x h)) k,
          ),
    )

-- The topology hook accepts a block exactly if it has what the regime at its height asks for.
pub check_topology_commitment_iff :
    (b : NyxBlock) (prev : Option BlockIndex) (net_id : String)
    → (check_topology_commitment b prev net_id ≡ accepted)
      ↔ TopologyAsked (regime_at (topo_activation_for_network net_id) (next_height prev)) b prev
unfolding check_topology_commitment
check_topology_commitment_iff b prev net_id =
    go (regime_at (topo_activation_for_network net_id) (next_height prev))
  where
    go : (r : TopoRegime) → (topology_at r b prev ≡ accepted) ↔ TopologyAsked r b prev
    go pre_derivation =
        unfold verify_topology_commitment in
        pre_verdict topo_commit_premature (has_topology_commitment b.nyx_aux)
          b.nyx_aux.topology_commitment (expected_topology_commitment genesis)
    go soft_advisory = soft_topology_iff b (next_height prev) (build_canonical_blocks b prev)
    go hard_authority = hard_topology_iff b (next_height prev) (build_canonical_blocks b prev)

-- What the regime asks of the lifecycle commitment, which is the hash of the derived lifecycle state.
abbrev pub LifecycleAsked : TopoRegime → NyxBlock → Option BlockIndex → Type 0
LifecycleAsked pre_derivation b prev = has_lifecycle_commitment b.nyx_aux ≡ false
LifecycleAsked soft_advisory b prev =
    (chain : List CommittedBlock) × (expected : LifecycleState) × (build_canonical_blocks b prev
      ≡ some chain)
    × (expected_lifecycle_from_chain chain (next_height prev) ≡ some expected)
LifecycleAsked hard_authority b prev =
    (chain : List CommittedBlock) × (expected : LifecycleState) × (build_canonical_blocks b prev
      ≡ some chain)
    × (expected_lifecycle_from_chain chain (next_height prev) ≡ some expected)
    × (has_lifecycle_commitment b.nyx_aux ≡ true)
    × (b.nyx_aux.lifecycle_commitment ≡ expected_lifecycle_commitment expected)

soft_expected_iff :
    (b : NyxBlock) (o : Option LifecycleState)
    → (lifecycle_verdict soft_advisory b o ≡ accepted) ↔ ((l : LifecycleState) × (o ≡ some l))
unfolding verify_lifecycle_commitment
soft_expected_iff b none = (λ e. cc, λ (l, e). cc)
soft_expected_iff b (some l) = (
  λ e. (l, refl),
  λ e.
      soft_verdict lifecycle_commit_invalid (has_lifecycle_commitment b.nyx_aux)
        b.nyx_aux.lifecycle_commitment (expected_lifecycle_commitment l),
)

hard_expected_iff :
    (b : NyxBlock) (o : Option LifecycleState)
    → (lifecycle_verdict hard_authority b o ≡ accepted) ↔ (
        (l : LifecycleState) × (o ≡ some l)
        × (has_lifecycle_commitment b.nyx_aux ≡ true)
        × (b.nyx_aux.lifecycle_commitment ≡ expected_lifecycle_commitment l))
unfolding verify_lifecycle_commitment
hard_expected_iff b none = (λ e. cc, λ (l, e, _, _). cc)
hard_expected_iff b (some l) =
    let (f, g) =
      hard_verdict lifecycle_commit_invalid (has_lifecycle_commitment b.nyx_aux)
        b.nyx_aux.lifecycle_commitment (expected_lifecycle_commitment l) in
    (
      λ e. let (t, q) = f e in (l, refl, t, q),
      λ (m, e, t, q). let k : m ≡ l = cc in g (t, q ∙ ap expected_lifecycle_commitment k),
    )

-- The lifecycle hook accepts a block exactly if it has what the regime at its height asks for.
pub check_lifecycle_commitment_iff :
    (b : NyxBlock) (prev : Option BlockIndex) (net_id : String)
    → (check_lifecycle_commitment b prev net_id ≡ accepted)
      ↔ LifecycleAsked
          (regime_at (chain_id_activation_for_network net_id) (next_height prev))
          b
          prev
unfolding check_lifecycle_commitment
check_lifecycle_commitment_iff b prev net_id =
    go (regime_at (chain_id_activation_for_network net_id) (next_height prev))
  where
    soft :
        (o : Option (List CommittedBlock))
        → (lifecycle_result soft_advisory b (next_height prev) o ≡ accepted) ↔ (
            (chain : List CommittedBlock) × (l : LifecycleState) × (o ≡ some chain)
            × (expected_lifecycle_from_chain chain (next_height prev) ≡ some l))
    soft none = (λ e. cc, λ (c, l, e, _). cc)
    soft (some chain) =
        let (f, g) = soft_expected_iff b (expected_lifecycle_from_chain chain (next_height prev)) in
        (
          λ e. let (l, q) = f e in (chain, l, refl, q),
          λ (c, l, e, q).
              let k : chain ≡ c = cc in
              g (l, ap (λ x. expected_lifecycle_from_chain x (next_height prev)) k ∙ q),
        )

    hard :
        (o : Option (List CommittedBlock))
        → (lifecycle_result hard_authority b (next_height prev) o ≡ accepted) ↔ (
            (chain : List CommittedBlock) × (l : LifecycleState) × (o ≡ some chain)
            × (expected_lifecycle_from_chain chain (next_height prev) ≡ some l)
            × (has_lifecycle_commitment b.nyx_aux ≡ true)
            × (b.nyx_aux.lifecycle_commitment ≡ expected_lifecycle_commitment l))
    hard none = (λ e. cc, λ (c, l, e, _, _, _). cc)
    hard (some chain) =
        let (f, g) = hard_expected_iff b (expected_lifecycle_from_chain chain (next_height prev)) in
        (
          λ e. let (l, q, t, u) = f e in (chain, l, refl, q, t, u),
          λ (c, l, e, q, t, u).
              let k : chain ≡ c = cc in
              g (l, ap (λ x. expected_lifecycle_from_chain x (next_height prev)) k ∙ q, t, u),
        )

    go : (r : TopoRegime) → (lifecycle_at r b prev ≡ accepted) ↔ LifecycleAsked r b prev
    go pre_derivation =
        unfold verify_lifecycle_commitment in
        pre_verdict lifecycle_commit_premature (has_lifecycle_commitment b.nyx_aux)
          b.nyx_aux.lifecycle_commitment (expected_lifecycle_commitment lifecycle_genesis)
    go soft_advisory = soft (build_canonical_blocks b prev)
    go hard_authority = hard (build_canonical_blocks b prev)
