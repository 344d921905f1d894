-- ===== src/Lifecycle/Step.antt =====
-- The steps that `LitenyxAdvanceChainIdLifecycle` is to take, as a relation on coherent states.
use litenyx.Common.{
  ℕ, ◌+◌, ◌%◌, ◌<◌, ◌≡◌, ◌≢◌, ◌↔◌, sym, ap, true, some, List, [], ◌∷◌, ◌++◌, length, All, arith,
  length-append,
}
use litenyx.Common.Words.{u32_max}
use litenyx.Topology.Apply.{InRange}
use litenyx.Topology.{obs_window}
use litenyx.Lifecycle.{
  ChainIdBinding, LifecycleState, lifecycle_state_version, is_count, retire_lane,
}
use litenyx.Lifecycle.Coherence.{LanesFrom, Issued, Differs, Distinct, IsCoherent}

pub data LifecycleStep (prev : LifecycleState) (n_prev n_cur height : ℕ) (out : LifecycleState)
    : Type 0 where
  held :
      n_cur ≡ n_prev
      → out ≡ record prev { n_version = lifecycle_state_version }
      → LifecycleStep prev n_prev n_cur height out
  split :
      n_cur ≡ n_prev + 1
      → height % obs_window ≡ 0
      → prev.next_chain_id < u32_max
      → out ≡ record {
        n_version = lifecycle_state_version;
        next_chain_id = prev.next_chain_id + 1;
        active_bindings =
            prev.active_bindings ++ record { lane_id = n_prev; chain_id = prev.next_chain_id } ∷ [];
        last_lifecycle_height = height;
      }
      → LifecycleStep prev n_prev n_cur height out
  merged :
      (last : ChainIdBinding)
      → n_prev ≡ n_cur + 1
      → height % obs_window ≡ 0
      → last.lane_id ≡ n_cur
      → prev.active_bindings ≡ out.active_bindings ++ last ∷ []
      → out ≡ record {
        n_version = lifecycle_state_version;
        next_chain_id = prev.next_chain_id;
        active_bindings = out.active_bindings;
        last_lifecycle_height = height;
      }
      → LifecycleStep prev n_prev n_cur height out

pub LanesFrom-snoc :
    (i : ℕ) (bs : List ChainIdBinding) (b : ChainIdBinding)
    → LanesFrom i (bs ++ b ∷ []) ↔ (LanesFrom i bs × (b.lane_id ≡ i + length bs))
LanesFrom-snoc i [] b = (λ h. (tt, omega arith), λ h. (omega arith, tt))
LanesFrom-snoc i (x ∷ bs) b =
    let (f, g) = LanesFrom-snoc (i + 1) bs b in
    (λ (e, h). let (l, k) = f h in ((e, l), omega arith), λ h. (h.0.0, g (h.0.1, omega arith)))

All-snoc {κ} :
    (P : ChainIdBinding → Type κ) (bs : List ChainIdBinding) (b : ChainIdBinding)
    → All P (bs ++ b ∷ []) ↔ (All P bs × P b)
All-snoc P [] b = (λ h. (tt, h.0), λ h. (h.1, tt))
All-snoc P (x ∷ bs) b =
    let (f, g) = All-snoc P bs b in
    (λ (e, h). let (l, k) = f h in ((e, l), k), λ h. (h.0.0, g (h.0.1, h.1)))

Distinct-snoc :
    (bs : List ChainIdBinding) (b : ChainIdBinding)
    → Distinct (bs ++ b ∷ []) ↔ (Distinct bs × Differs b.chain_id bs)
Distinct-snoc [] b = (λ h. (tt, tt), λ h. (tt, tt))
Distinct-snoc (x ∷ bs) b =
    let (f, g) = Distinct-snoc bs b in
    let (p, q) = All-snoc (λ y. y.chain_id ≢ x.chain_id) bs b in
    (
      λ (d, h). let (d', ne) = p d in let (h', o) = f h in ((d', h'), (λ e. ne (sym e), o)),
      λ h. (q (h.0.0, λ e. h.1.0 (sym e)), g (h.0.1, h.1.1)),
    )

Issued-Differs : (next : ℕ) (bs : List ChainIdBinding) → Issued next bs → Differs next bs
Issued-Differs next [] h = tt
Issued-Differs next (b ∷ bs) h = (omega arith, Issued-Differs next bs h.1)

Issued-suc : (next : ℕ) (bs : List ChainIdBinding) → Issued next bs → Issued (next + 1) bs
Issued-suc next [] h = tt
Issued-suc next (b ∷ bs) h = (omega arith, Issued-suc next bs h.1)

-- A step of the relation leads from a coherent state to a coherent state.
pub LifecycleStep-IsCoherent :
    (prev : LifecycleState) (n_prev n_cur height : ℕ) (out : LifecycleState)
    → IsCoherent prev n_prev
    → InRange n_cur
    → LifecycleStep prev n_prev n_cur height out
    → IsCoherent out n_cur
LifecycleStep-IsCoherent prev n_prev n_cur height out c r (held e o) =
    rw (o, e)
      (record {
        in_range = c.in_range;
        count = c.count;
        lanes = c.lanes;
        issued = c.issued;
        distinct = c.distinct;
      })
LifecycleStep-IsCoherent prev n_prev n_cur height out c r (split e a x o) =
    let bs : List ChainIdBinding = prev.active_bindings in
    let next : ℕ = prev.next_chain_id in
    let b : ChainIdBinding = record { lane_id = n_prev; chain_id = next } in
    rw o (record {
      in_range = r;
      count = omega (arith, length-append bs (b ∷ []), c.count);
      lanes = (LanesFrom-snoc 0 bs b).1 (c.lanes, omega (arith, c.count));
      issued =
          (All-snoc (λ y. y.chain_id < next + 1) bs b).1 (Issued-suc next bs c.issued, omega arith);
      distinct = (Distinct-snoc bs b).1 (c.distinct, Issued-Differs next bs c.issued);
    })
LifecycleStep-IsCoherent prev n_prev n_cur height out c r (merged last e a l f o) = rw o (record {
  in_range = r;
  count = omega (arith, ap length f, length-append out.active_bindings (last ∷ []), c.count);
  lanes = ((LanesFrom-snoc 0 out.active_bindings last).0 (rw f at c.lanes)).0;
  issued = ((All-snoc _ out.active_bindings last).0 (rw f at c.issued)).0;
  distinct = ((Distinct-snoc out.active_bindings last).0 (rw f at c.distinct)).0;
})

pub retire_lane-last :
    (i lane : ℕ) (front : List ChainIdBinding) (last : ChainIdBinding)
    → LanesFrom i front
    → last.lane_id ≡ lane
    → lane ≡ i + length front
    → retire_lane lane (front ++ last ∷ []) ≡ some front
unfolding retire_lane
retire_lane-last i lane [] last h l e = ground arith
retire_lane-last i lane (b ∷ front) last (k, h) l e =
    let ih = retire_lane-last (i + 1) lane front last h l (omega arith) in
    let ne : b.lane_id ≢ lane = omega arith in rw ih (ground arith)

pub is_count-InRange : (n : ℕ) → (is_count n ≡ true) ↔ InRange n
unfolding is_count
is_count-InRange n = ground arith
