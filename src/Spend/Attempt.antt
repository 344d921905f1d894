-- ===== src/Spend/Attempt.antt =====
-- An attempt to connect a block: what it accepts, and what it leaves in the live set.
use litenyx.Common.{
  ℕ, ◌≡◌, ◌↔◌, refl, ◌∙◌, Bool, true, false, ◌||◌, ◌&&◌, inl, inr, sym, ap, some, none, Bool-cases,
  List, [], ◌∷◌, ◌++◌, if◌then◌else◌, arith, All,
}
use mathlib.Core.List.{append_assoc, append-nil}
use litenyx.Common.Words.{u8}
use litenyx.Spend.{
  OutPoint, same_outpoint, SpentMap, staged_here, stage_spend, publish, World, open_scope,
  close_scope, publish_active, SpendBlock, spends, stage_inputs, record_inputs,
  connect_shared_state, attempt,
}
use litenyx.Spend.Lookup.{
  record_inputs_lookup, contains, same_outpoint_iff, staged_of, record_staged_of,
}

-- No outpoint is spent yet.
abbrev pub Unspent : SpentMap → List OutPoint → Type 0
Unspent m ops = All (λ op. m op ≡ none) ops

-- No outpoint stands twice in the list.
abbrev pub DistinctOps : List OutPoint → Type 0
DistinctOps [] = Unit {0}
DistinctOps (op ∷ ops) = (contains ops op ≡ false) × DistinctOps ops

abbrev Unstaged : List (OutPoint × ℕ) → List OutPoint → Type 0
Unstaged s ops = All (λ op. staged_here s op ≡ false) ops

staged_here-snoc :
    (s : List (OutPoint × ℕ)) (o x : OutPoint) (chain : ℕ)
    → staged_here (s ++ (o, chain) ∷ []) x ≡ staged_here s x || same_outpoint o x
unfolding staged_here
staged_here-snoc [] o x chain = ground arith
staged_here-snoc ((a, c) ∷ s) o x chain = ground (arith, staged_here-snoc s o x chain)

Unstaged-snoc :
    (s : List (OutPoint × ℕ)) (o : OutPoint) (chain : ℕ) (ops : List OutPoint)
    → Unstaged (s ++ (o, chain) ∷ []) ops ↔ (Unstaged s ops × (contains ops o ≡ false))
unfolding contains
Unstaged-snoc s o chain [] = (λ h. (tt, refl), λ h. tt)
Unstaged-snoc s o chain (x ∷ ops) =
    let (f, g) = Unstaged-snoc s o chain ops in
    let e = staged_here-snoc s o x chain in
    let p = same_outpoint_iff o x in
    let q = same_outpoint_iff x o in
    (
      λ (h, t). let (u, n) = f t in ((ground arith, u), ground arith),
      λ ((h, t), n). (ground arith, g (t, ground arith)),
    )

stage_inputs_iff :
    (live : SpentMap) (s : List (OutPoint × ℕ)) (p : Bool) (chain : ℕ) (ops : List OutPoint)
    → ((stage_inputs live (record { staged = s; published = p }) chain ops).1 ≡ true)
      ↔ (Unspent live ops × DistinctOps ops × Unstaged s ops)
unfolding stage_inputs stage_spend
stage_inputs_iff live s p chain [] = (λ _. (tt, tt, tt), λ _. refl)
stage_inputs_iff live s p chain (op ∷ ops) =
    let (f, g) = stage_inputs_iff live (s ++ (op, chain) ∷ []) p chain ops in
    let (h, k) = Unstaged-snoc s op chain ops in
    (
      λ e.
          let fresh : live op ≡ none = ground arith in
          let new : staged_here s op ≡ false = ground arith in
          let (u, d, n) = f (ground arith) in let (n', c) = h n in ((fresh, u), (c, d), (new, n')),
      λ ((fresh, u), (c, d), (new, n)). let e = g (u, d, k (n, c)) in ground arith,
    )

stage_inputs_delta :
    (live : SpentMap) (s : List (OutPoint × ℕ)) (chain : ℕ) (ops : List OutPoint)
    → (stage_inputs live (record { staged = s; published = false }) chain ops).1 ≡ true
    → (stage_inputs live (record { staged = s; published = false }) chain ops).0
      ≡ record { staged = s ++ staged_of chain ops; published = false }
unfolding stage_inputs stage_spend staged_of
stage_inputs_delta live s chain [] e = rw append-nil
stage_inputs_delta live s chain (op ∷ ops) e =
    let ih = stage_inputs_delta live (s ++ (op, chain) ∷ []) chain ops in
    ground (arith, ih, append_assoc s ((op, chain) ∷ []) (staged_of chain ops))

all-Unstaged : (ops : List OutPoint) → Unstaged [] ops
unfolding staged_here
all-Unstaged [] = tt
all-Unstaged (op ∷ ops) = (refl, all-Unstaged ops)

-- An attempt succeeds exactly if the flush does, no input of the block is spent on any chain, and no
-- two inputs of the block spend the same outpoint.
pub attempt_iff :
    (w : World) (b : SpendBlock) (flushed : Bool)
    → ((attempt w b flushed).1 ≡ true)
      ↔ ((flushed ≡ true) × Unspent w.live (spends b.vtx) × DistinctOps (spends b.vtx))
unfolding attempt connect_shared_state open_scope
attempt_iff w b flushed =
    let (f, g) = stage_inputs_iff w.live [] false (u8 b.chain_id) (spends b.vtx) in
    (
      λ e. let (u, d, _) = f (ground arith) in (ground arith, u, d),
      λ (h, u, d). let e = g (u, d, all-Unstaged (spends b.vtx)) in ground arith,
    )

attempt_world :
    (w : World) (b : SpendBlock) (flushed : Bool)
    → (attempt w b flushed).0 ≡ (
        if (attempt w b flushed).1
        then record w { live = record_inputs w.live (u8 b.chain_id) (spends b.vtx) }
        else w)
unfolding attempt connect_shared_state open_scope close_scope publish_active publish
attempt_world w b flushed =
    let d = stage_inputs_delta w.live [] (u8 b.chain_id) (spends b.vtx) in
    let r = record_staged_of w.live (u8 b.chain_id) (spends b.vtx) in ground (arith, d, r)

pub attempt_done :
    (w : World) (b : SpendBlock) (flushed : Bool)
    → (attempt w b flushed).1 ≡ true
    → (attempt w b flushed).0
      ≡ record w { live = record_inputs w.live (u8 b.chain_id) (spends b.vtx) }
attempt_done w b flushed e = attempt_world w b flushed ∙ rw e

attempt_failed :
    (w : World) (b : SpendBlock) (flushed : Bool)
    → (attempt w b flushed).1 ≡ false
    → (attempt w b flushed).0 ≡ w
attempt_failed w b flushed e = attempt_world w b flushed ∙ rw e

pub Unspent-contains :
    (m : SpentMap) (ops : List OutPoint) (j : OutPoint)
    → Unspent m ops
    → contains ops j ≡ true
    → m j ≡ none
unfolding contains
Unspent-contains m [] j u e = cc
Unspent-contains m (op ∷ ops) j (h, u) e = elim (Bool-cases (same_outpoint op j)) [
  | inl s ↦ ap m (sym ((same_outpoint_iff op j).0 s)) ∙ h
  | inr d ↦ Unspent-contains m ops j u (ground arith)
]

recorded :
    (m : SpentMap) (chain : ℕ) (ops : List OutPoint) (j : OutPoint)
    → Unspent m ops
    → record_inputs m chain ops j ≡ (if contains ops j then some chain else m j)
recorded m chain ops j u =
    ground (arith, record_inputs_lookup m chain ops j, Unspent-contains m ops j u)

-- An attempt leaves the scopes as they were. Afterwards an outpoint is spent under the chain of the
-- block if the attempt succeeded and the outpoint is an input of the block, and it is what it was
-- otherwise: a failed attempt changes nothing.
pub attempt_effect :
    (w : World) (b : SpendBlock) (flushed : Bool)
    → ((attempt w b flushed).0.scopes ≡ w.scopes)
      × ((j : OutPoint)
          → (attempt w b flushed).0.live j ≡ (
              if (attempt w b flushed).1 && contains (spends b.vtx) j
              then some (u8 b.chain_id)
              else w.live j))
attempt_effect w b flushed = elim (Bool-cases (attempt w b flushed).1) [
  | inl e ↦
      let (_, u, _) = (attempt_iff w b flushed).0 e in
      let d = attempt_done w b flushed e in
      (
        ap (λ (x : World). x.scopes) d,
        λ j.
            ap (λ (x : World). x.live j) d
            ∙ recorded w.live (u8 b.chain_id) (spends b.vtx) j u
            ∙ ground (arith, e),
      )
  | inr e ↦
      let d = attempt_failed w b flushed e in
      (ap (λ (x : World). x.scopes) d, λ j. ap (λ (x : World). x.live j) d ∙ ground (arith, e))
]
