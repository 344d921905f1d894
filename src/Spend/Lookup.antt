-- ===== src/Spend/Lookup.antt =====
-- The spent map after the loops that write it, as one lookup.
use litenyx.Common.{
  ℕ, ◌≡◌, ◌↔◌, refl, ◌∙◌, Bool, true, false, ◌||◌, none, some, List, [], ◌∷◌, if◌then◌else◌, arith,
}
use litenyx.Lifecycle.{is_some}
use litenyx.Spend.{
  OutPoint, same_outpoint, SpentMap, record_spend, revert_spend, record_staged, record_inputs,
  revert_inputs,
}

unfoldable pub contains : List OutPoint → OutPoint → Bool
contains [] j = false
contains (op ∷ ops) j = same_outpoint op j || contains ops j

pub same_outpoint_iff : (a b : OutPoint) → (same_outpoint a b ≡ true) ↔ (a ≡ b)
same_outpoint_iff a b = ground arith

-- Recording keeps the first spender of an outpoint.
pub record_inputs_lookup :
    (m : SpentMap) (chain : ℕ) (ops : List OutPoint) (j : OutPoint)
    → record_inputs m chain ops j
      ≡ (if is_some (m j) then m j else if contains ops j then some chain else none)
unfolding record_inputs contains
record_inputs_lookup m chain [] j = ground arith
record_inputs_lookup m chain (op ∷ ops) j =
    record_inputs_lookup (record_spend m op chain).0 chain ops j ∙ step
  where
    step :
        (if is_some ((record_spend m op chain).0 j)
          then (record_spend m op chain).0 j
          else if contains ops j
          then some chain
          else none)
        ≡ (if is_some (m j)
            then m j
            else if same_outpoint op j || contains ops j
            then some chain
            else none)
    step = unfold record_spend in ground (arith, same_outpoint_iff op j)

pub revert_inputs_lookup :
    (m : SpentMap) (ops : List OutPoint) (j : OutPoint)
    → revert_inputs m ops j ≡ (if contains ops j then none else m j)
unfolding revert_inputs contains
revert_inputs_lookup m [] j = refl
revert_inputs_lookup m (op ∷ ops) j = revert_inputs_lookup (revert_spend m op) ops j ∙ step
  where
    step :
        (if contains ops j then none else revert_spend m op j)
        ≡ (if same_outpoint op j || contains ops j then none else m j)
    step = unfold revert_spend in ground arith

unfoldable pub staged_of : ℕ → List OutPoint → List (OutPoint × ℕ)
staged_of chain [] = []
staged_of chain (op ∷ ops) = (op, chain) ∷ staged_of chain ops

pub record_staged_of :
    (m : SpentMap) (chain : ℕ) (ops : List OutPoint)
    → record_staged m (staged_of chain ops) ≡ record_inputs m chain ops
unfolding record_staged record_inputs staged_of
record_staged_of m chain [] = refl
record_staged_of m chain (op ∷ ops) = record_staged_of (record_spend m op chain).0 chain ops
