-- ===== src/Spend.antt =====
-- litenyx/LITENYX_sharedstate.h and LITENYX_sharedstate.cpp, with the hooks of
-- litenyx/LITENYX_validation.cpp that write to it: the one set of spent outpoints of all chains.
pub mod Lookup
pub mod Attempt
pub mod Reorg
mod Tests
use litenyx.Common.{
  ℕ, Bool, true, false, ◌&&◌, Option, none, some, List, [], ◌∷◌, ◌++◌, map, ◌==◌, if◌then◌else◌,
}
use litenyx.Common.Words.{u8}
use litenyx.Params.{max_chains}
use litenyx.Lifecycle.{is_some}

-- A `uint256` is a number of which only equality is used.
pub record OutPoint : Type 0 where
  pub hash : ℕ
  pub n : ℕ

abbrev pub same_outpoint : OutPoint → OutPoint → Bool
same_outpoint a b = a.hash == b.hash && a.n == b.n

-- `std::unordered_map<LitenyxOutPoint, uint8_t>` is the function that looks an outpoint up.
abbrev pub SpentMap : Type 0
SpentMap = OutPoint → Option ℕ

abbrev pub empty : SpentMap
empty op = none

pub is_spent : SpentMap → OutPoint → Bool
is_spent m op = is_some (m op)

pub record_spend : SpentMap → OutPoint → ℕ → SpentMap × Bool
unfolding is_spent
record_spend m op chain =
    if is_spent m op
    then (m, false)
    else (λ j. if same_outpoint op j then some chain else m j, true)

pub revert_spend : SpentMap → OutPoint → SpentMap
revert_spend m op j = if same_outpoint op j then none else m j

pub confirming_chain : SpentMap → OutPoint → ℕ
confirming_chain m op = elim (m op) [ none ↦ max_chains | some chain ↦ chain ]

pub record CandidateDelta : Type 0 where
  pub staged : List (OutPoint × ℕ)
  pub published : Bool

abbrev pub fresh_delta : CandidateDelta
fresh_delta = record { staged = []; published = false }

pub staged_here : List (OutPoint × ℕ) → OutPoint → Bool
staged_here [] op = false
staged_here ((o, chain) ∷ rest) op = if same_outpoint o op then true else staged_here rest op

pub stage_spend : SpentMap → CandidateDelta → OutPoint → ℕ → CandidateDelta × Bool
unfolding is_spent staged_here
stage_spend live d op chain =
    if is_spent live op
    then (d, false)
    else if staged_here d.staged op
    then (d, false)
    else (record d { staged = d.staged ++ (op, chain) ∷ [] }, true)

-- The loop of `Publish`, which ignores what `RecordSpend` returns.
pub record_staged : SpentMap → List (OutPoint × ℕ) → SpentMap
record_staged m [] = m
record_staged m ((op, chain) ∷ rest) = record_staged (record_spend m op chain).0 rest

pub publish : SpentMap → CandidateDelta → SpentMap × CandidateDelta
publish live d =
    if d.published then (live, d) else (record_staged live d.staged, record d { published = true })

-- The live singleton and the active `LitenyxSpendPublishScope`s of the thread, the innermost first.
pub record World : Type 0 where
  pub live : SpentMap
  pub scopes : List CandidateDelta

pub open_scope : World → World
open_scope w = record w { scopes = fresh_delta ∷ w.scopes }

close_scopes : List CandidateDelta → List CandidateDelta
close_scopes [] = []
close_scopes (d ∷ outer) = outer

pub close_scope : World → World
unfolding close_scopes
close_scope w = record w { scopes = close_scopes w.scopes }

publish_in : SpentMap → List CandidateDelta → World
publish_in live [] = record { live = live; scopes = [] }
publish_in live (d ∷ outer) =
    let (live', d') = publish live d in record { live = live'; scopes = d' ∷ outer }

-- `PublishActive()` of the innermost scope.
pub publish_active : World → World
unfolding publish_in
publish_active w = publish_in w.live w.scopes

pub record Tx : Type 0 where
  pub is_coinbase : Bool
  pub vin : List OutPoint

pub record SpendBlock : Type 0 where
  pub chain_id : ℕ  -- `nyx_aux.chainId`, uint32
  pub vtx : List Tx

-- The two nested loops over the inputs of the transactions that are no coinbase.
pub spends : List Tx → List OutPoint
spends [] = []
spends (tx ∷ vtx) = if tx.is_coinbase then spends vtx else tx.vin ++ spends vtx

pub stage_inputs : SpentMap → CandidateDelta → ℕ → List OutPoint → CandidateDelta × Bool
stage_inputs live d chain [] = (d, true)
stage_inputs live d chain (op ∷ ops) =
    let (d', accepted) = stage_spend live d op chain in
    elim accepted [ true ↦ stage_inputs live d' chain ops | false ↦ (d', false) ]

any_spent : SpentMap → List OutPoint → Bool
any_spent m [] = false
any_spent m (op ∷ ops) = if is_spent m op then true else any_spent m ops

pub record_inputs : SpentMap → ℕ → List OutPoint → SpentMap
record_inputs m chain [] = m
record_inputs m chain (op ∷ ops) = record_inputs (record_spend m op chain).0 chain ops

connect_in : SpentMap → List CandidateDelta → ℕ → List OutPoint → World × Bool
connect_in live [] chain ops =
    if any_spent live ops
    then (record { live = live; scopes = [] }, false)
    else (record { live = record_inputs live chain ops; scopes = [] }, true)
connect_in live (d ∷ outer) chain ops =
    let (d', accepted) = stage_inputs live d chain ops in
    (record { live = live; scopes = d' ∷ outer }, accepted)

-- `false` is `state.Invalid(...)`.
pub connect_shared_state : World → SpendBlock → World × Bool
unfolding connect_in any_spent
connect_shared_state w b = connect_in w.live w.scopes (u8 b.chain_id) (spends b.vtx)

pub revert_inputs : SpentMap → List OutPoint → SpentMap
revert_inputs m [] = m
revert_inputs m (op ∷ ops) = revert_inputs (revert_spend m op) ops

pub disconnect_shared_state : World → SpendBlock → World
disconnect_shared_state w b = record w { live = revert_inputs w.live (spends b.vtx) }

-- The walk over the active chain, from height 0; `none` is a body that cannot be read.
pub replay : SpentMap → List (Option SpendBlock) → SpentMap × Bool
replay m [] = (m, true)
replay m (none ∷ rest) = (m, false)
replay m (some b ∷ rest) = replay (record_inputs m (u8 b.chain_id) (spends b.vtx)) rest

pub rehydrate : World → List (Option SpendBlock) → World × Bool
unfolding replay
rehydrate w chain =
    let (live, complete) = replay empty chain in (record w { live = live }, complete)

-- One attempt of `ConnectTip` as deploy/patches/litenyx-validation.patch wires it: the scope opens,
-- the block is connected, the flush may fail, the tail publishes, and leaving closes the scope.
pub attempt : World → SpendBlock → Bool → World × Bool
attempt w b flushed =
    let (w', accepted) = connect_shared_state (open_scope w) b in
    if accepted && flushed then (close_scope (publish_active w'), true) else (close_scope w', false)
