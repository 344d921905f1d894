-- ===== src/Spend/Reorg.antt =====
-- The shared state across blocks: a second spend, a disconnect, and the replay of a chain.
use mathlib.Core.Path.{fun_ext}
use litenyx.Common.{
  ℕ, ◌≡◌, inl, inr, refl, sym, ap, ◌∙◌, Bool, true, false, Option, none, some, List, [], ◌∷◌, ◌++◌,
  map, arith, Bool-cases,
}
use litenyx.Common.Words.{u8}
use litenyx.Lifecycle.{is_some}
use litenyx.Spend.{
  OutPoint, SpentMap, empty, is_spent, World, SpendBlock, Tx, spends, record_inputs, revert_inputs,
  connect_shared_state, disconnect_shared_state, replay, rehydrate, attempt,
}
use litenyx.Spend.Lookup.{contains, same_outpoint_iff, record_inputs_lookup, revert_inputs_lookup}
use litenyx.Spend.Attempt.{attempt_effect, Unspent-contains, Unspent, attempt_iff, attempt_done}

revert-record :
    (m : SpentMap) (chain : ℕ) (ops : List OutPoint)
    → Unspent m ops
    → revert_inputs (record_inputs m chain ops) ops ≡ m
revert-record m chain ops u = fun_ext λ j.
    let back = revert_inputs_lookup (record_inputs m chain ops) ops j in
    let forth = record_inputs_lookup m chain ops j in
    ground (arith, back, forth, Unspent-contains m ops j u)

-- Disconnecting the block that was connected last brings the shared state back to what it was.
pub disconnect-attempt :
    (w : World) (b : SpendBlock) (flushed : Bool)
    → (attempt w b flushed).1 ≡ true
    → disconnect_shared_state (attempt w b flushed).0 b ≡ w
unfolding disconnect_shared_state
disconnect-attempt w b flushed e =
    let (_, u, _) = (attempt_iff w b flushed).0 e in
    let r = revert-record w.live (u8 b.chain_id) (spends b.vtx) u in
    rw (attempt_done w b flushed e) (ap (λ (m : SpentMap). record w { live = m }) r)

-- A state reached later, by attempts at any blocks and by disconnects of blocks that do not spend the
-- outpoint.
pub data Later (op : OutPoint) (w : World) : World → Type 0 where
  now : Later op w w
  tried :
      {v : World}
      → Later op w v
      → (b : SpendBlock) (flushed : Bool) → Later op w (attempt v b flushed).0
  undone :
      {v : World}
      → Later op w v
      → (b : SpendBlock) → contains (spends b.vtx) op ≡ false
      → Later op w (disconnect_shared_state v b)

undone_spent :
    (op : OutPoint) (u : World) (b : SpendBlock)
    → contains (spends b.vtx) op ≡ false
    → is_some (u.live op) ≡ true
    → is_some ((disconnect_shared_state u b).live op) ≡ true
unfolding disconnect_shared_state
undone_spent op u b n s = ground (arith, revert_inputs_lookup u.live (spends b.vtx) op)

stays_spent :
    (op : OutPoint) (w v : World)
    → is_some (w.live op) ≡ true
    → Later op w v
    → is_some (v.live op) ≡ true
stays_spent op w v s now = s
stays_spent op w v s (tried {v = u} l b flushed) =
    let ih = stays_spent op w u s l in
    let (_, e) = attempt_effect u b flushed in let q = e op in ground arith
stays_spent op w v s (undone {v = u} l b n) = undone_spent op u b n (stays_spent op w u s l)

-- After a connected block, no block on any chain that spends one of its outpoints is connected,
-- whatever blocks are tried and disconnected in between, as long as none that spends the outpoint is
-- disconnected.
pub attempt_conflict :
    (w v : World) (a b : SpendBlock) (flushed flushed' : Bool) (op : OutPoint)
    → (attempt w a flushed).1 ≡ true
    → contains (spends a.vtx) op ≡ true
    → Later op (attempt w a flushed).0 v
    → contains (spends b.vtx) op ≡ true
    → (attempt v b flushed').1 ≡ false
attempt_conflict w v a b flushed flushed' op ok ina later inb =
    elim (Bool-cases (attempt v b flushed').1) [
      | inl e ↦
          let (_, u, _) = (attempt_iff v b flushed').0 e in
          let free = Unspent-contains v.live (spends b.vtx) op u inb in
          let (_, f) = attempt_effect w a flushed in
          let effect = f op in
          let spent : is_some ((attempt w a flushed).0.live op) ≡ true = ground arith in
          let kept = stays_spent op (attempt w a flushed).0 v spent later in absurd (ground arith)
      | inr e ↦ e
    ]

-- The shared state after the blocks of a chain, where each attempt succeeds.
pub data Connected (w : World) : List SpendBlock → World → Type 0 where
  start : Connected w [] w
  extend :
      {bs : List SpendBlock} {v : World}
      → Connected w bs v
      → (b : SpendBlock) → (attempt v b true).1 ≡ true
      → Connected w (bs ++ b ∷ []) (attempt v b true).0

abbrev pub readable : List SpendBlock → List (Option SpendBlock)
readable = map some

replay-snoc :
    (m : SpentMap) (bs : List SpendBlock) (b : SpendBlock)
    → replay m (readable (bs ++ b ∷ []))
      ≡ (record_inputs (replay m (readable bs)).0 (u8 b.chain_id) (spends b.vtx), true)
unfolding replay
replay-snoc m [] b = refl
replay-snoc m (x ∷ bs) b = replay-snoc (record_inputs m (u8 x.chain_id) (spends x.vtx)) bs b

replay-Connected :
    {w : World} {bs : List SpendBlock} {v : World}
    → w.live ≡ empty
    → Connected w bs v
    → ((replay empty (readable bs)).0 ≡ v.live) × ((replay empty (readable bs)).1 ≡ true)
replay-Connected e start = (unfold replay in sym e, unfold replay in refl)
replay-Connected e (extend {bs = bs} {v = v} c b ok) =
    let (l, _) = replay-Connected e c in
    let s = replay-snoc empty bs b in
    let effect = ap (λ (x : World). x.live) (attempt_done v b true ok) in
    (
      ap (λ (r : SpentMap × Bool). r.0) s
          ∙ ap (λ m. record_inputs m (u8 b.chain_id) (spends b.vtx)) l
          ∙ sym effect,
      ap (λ (r : SpentMap × Bool). r.1) s,
    )

-- After a restart, the replay of a chain whose blocks were connected one by one from an empty set
-- ends with the live set of that moment, whatever the live set holds when the replay begins.
pub rehydrate-Connected :
    (w v z : World) (bs : List SpendBlock)
    → w.live ≡ empty
    → Connected w bs v
    → ((rehydrate z (readable bs)).0.live ≡ v.live) × ((rehydrate z (readable bs)).1 ≡ true)
unfolding rehydrate
rehydrate-Connected w v z bs e c = replay-Connected e c

-- A block of two transactions that spend the same outpoint.
abbrev pub doubled : ℕ → OutPoint → SpendBlock
doubled chain op = record { chain_id = chain; vtx = tx ∷ tx ∷ [] }
  where
    tx : Tx
    tx = record { is_coinbase = false; vin = op ∷ [] }

abbrev pub no_scope : SpentMap → World
no_scope live = record { live = live; scopes = [] }

-- The fall-back path, with no scope open, accepts a block that spends an unspent outpoint in two of
-- its transactions; an attempt refuses the same block.
pub fallback_accepts_doubled :
    (live : SpentMap) (chain : ℕ) (op : OutPoint)
    → live op ≡ none
    → ((connect_shared_state (no_scope live) (doubled chain op)).1 ≡ true)
      × ((attempt (no_scope live) (doubled chain op) true).1 ≡ false)
unfolding connect_shared_state spends is_spent
fallback_accepts_doubled live chain op e = (
  rw (e, is_spent),
  elim (Bool-cases (attempt (no_scope live) (doubled chain op) true).1) [
    | inl ok ↦
        let (_, _, d) = (attempt_iff (no_scope live) (doubled chain op) true).0 ok in
        let same = (same_outpoint_iff op op).1 refl in
        absurd (unfold contains in ground (arith, d.0, same))
    | inr refused ↦ refused
  ],
)
