-- ===== src/Lifecycle/Coherence.antt =====
-- `LitenyxLifecycleStateCoherent` against a predicate that is stated without its loops.
use litenyx.Common.{
  ℕ, ◌+◌, ◌≤◌, ◌<◌, ◌≡◌, ◌≢◌, ◌↔◌, refl, sym, true, List, [], ◌∷◌, length, All, arith,
}
use litenyx.Topology.Apply.{InRange}
use litenyx.Lifecycle.{
  ChainIdBinding, LifecycleState, is_new_chain_id, bindings_coherent, is_count,
  lifecycle_state_coherent, lifecycle_genesis,
}

-- The lanes are `i`, `i + 1` and so on, in order.
abbrev pub LanesFrom : ℕ → List ChainIdBinding → Type 0
LanesFrom i [] = Unit {0}
LanesFrom i (b ∷ bs) = (b.lane_id ≡ i) × LanesFrom (i + 1) bs

abbrev pub Issued : ℕ → List ChainIdBinding → Type 0
Issued next bs = All (λ b. b.chain_id < next) bs

abbrev pub Differs : ℕ → List ChainIdBinding → Type 0
Differs c bs = All (λ b. b.chain_id ≢ c) bs

abbrev pub Distinct : List ChainIdBinding → Type 0
Distinct [] = Unit {0}
Distinct (b ∷ bs) = Differs b.chain_id bs × Distinct bs

-- One lane for each of the `n` chains, and one chain identity below `next_chain_id` for each lane.
pub record IsCoherent (l : LifecycleState) (n : ℕ) : Type 0 where
  pub in_range : InRange n
  pub count : length l.active_bindings ≡ n
  pub lanes : LanesFrom 0 l.active_bindings
  pub issued : Issued l.next_chain_id l.active_bindings
  pub distinct : Distinct l.active_bindings

abbrev Outside : List ChainIdBinding → List ChainIdBinding → Type 0
Outside seen bs = All (λ b. Differs b.chain_id seen) bs

Outside-head :
    (b : ChainIdBinding) (seen bs : List ChainIdBinding)
    → Outside (b ∷ seen) bs
    → Differs b.chain_id bs × Outside seen bs
Outside-head b seen [] h = (tt, tt)
Outside-head b seen (x ∷ bs) ((ne, out), rest) =
    let (d, o) = Outside-head b seen bs rest in ((λ e. ne (sym e), d), (out, o))

Outside-cons :
    (b : ChainIdBinding) (seen bs : List ChainIdBinding)
    → Differs b.chain_id bs
    → Outside seen bs
    → Outside (b ∷ seen) bs
Outside-cons b seen [] d o = tt
Outside-cons b seen (x ∷ bs) (ne, d) (out, o) = ((λ e. ne (sym e), out), Outside-cons b seen bs d o)

pub is_new-Differs :
    (c : ℕ) (bs : List ChainIdBinding) → (is_new_chain_id c bs ≡ true) ↔ Differs c bs
unfolding is_new_chain_id
is_new-Differs c [] = (λ _. tt, λ _. refl)
is_new-Differs c (b ∷ bs) =
    let (f, g) = is_new-Differs c bs in
    (λ h. (ground arith, f (ground arith)), λ (ne, d). let e = g d in ground arith)

bindings_sound :
    (next i : ℕ) (seen bs : List ChainIdBinding)
    → i + length bs ≤ 256
    → bindings_coherent next i seen bs ≡ true
    → LanesFrom i bs × Issued next bs × Distinct bs × Outside seen bs
unfolding bindings_coherent
bindings_sound next i seen [] fits h = (tt, tt, tt, tt)
bindings_sound next i seen (b ∷ bs) fits h =
    let (lanes, issued, distinct, outside) =
      bindings_sound next (i + 1) (b ∷ seen) bs (omega arith) (ground arith) in
    let (differs, outside') = Outside-head b seen bs outside in
    (
      (ground arith, lanes),
      (ground arith, issued),
      (differs, distinct),
      ((is_new-Differs b.chain_id seen).0 (ground arith), outside'),
    )

bindings_complete :
    (next i : ℕ) (seen bs : List ChainIdBinding)
    → i + length bs ≤ 256
    → LanesFrom i bs
    → Issued next bs
    → Distinct bs
    → Outside seen bs
    → bindings_coherent next i seen bs ≡ true
unfolding bindings_coherent
bindings_complete next i seen [] fits _ _ _ _ = refl
bindings_complete next i seen (b ∷ bs) fits (lane, lanes) (lt, issued) (differs, distinct)
      (new, out) =
    let ih =
      bindings_complete next (i + 1) (b ∷ seen) bs (omega arith) lanes issued distinct
        (Outside-cons b seen bs differs out) in
    let n = (is_new-Differs b.chain_id seen).1 new in ground arith

all_Outside : (bs : List ChainIdBinding) → Outside [] bs
all_Outside [] = tt
all_Outside (b ∷ bs) = (tt, all_Outside bs)

-- The check accepts a state for `n` lanes exactly when the state is coherent: 2 to 8 lanes in order,
-- each with an issued chain identity, and no identity on two lanes.
pub lifecycle_state_coherent_iff :
    (l : LifecycleState) (n : ℕ) → (lifecycle_state_coherent l n ≡ true) ↔ IsCoherent l n
unfolding lifecycle_state_coherent is_count
lifecycle_state_coherent_iff l n = (forth, back)
  where
    forth : lifecycle_state_coherent l n ≡ true → IsCoherent l n
    forth h =
        let bc : bindings_coherent l.next_chain_id 0 [] l.active_bindings ≡ true = ground arith in
        let len : length l.active_bindings ≡ n = ground arith in
        let r : InRange n = ground arith in
        let (lanes, issued, distinct, _) =
          bindings_sound l.next_chain_id 0 [] l.active_bindings (omega arith) bc in
        record { in_range = r; count = len; lanes = lanes; issued = issued; distinct = distinct }

    back : IsCoherent l n → lifecycle_state_coherent l n ≡ true
    back c =
        let bc =
          bindings_complete l.next_chain_id 0 [] l.active_bindings
            (omega (arith, c.in_range, c.count)) c.lanes c.issued c.distinct
            (all_Outside l.active_bindings) in
        let r = c.in_range in let len = c.count in ground arith

pub genesis-IsCoherent : IsCoherent lifecycle_genesis 2
unfolding lifecycle_genesis
genesis-IsCoherent =
    (lifecycle_state_coherent_iff lifecycle_genesis 2).0
      (unfold lifecycle_state_coherent is_count bindings_coherent is_new_chain_id in refl)
