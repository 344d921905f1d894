-- ===== src/Spend/Tests.antt =====
-- Theorems of the shared spent set at concrete inputs.
use litenyx.Common.{some, none, ◌&&◌, ◌≡◌, ◌↔◌, refl, true, false, [], ◌∷◌, if◌then◌else◌}
use litenyx.Common.Words.{u8}
use litenyx.Spend.{
  OutPoint, empty, is_spent, World, SpendBlock, spends, staged_here, stage_spend, stage_inputs,
  connect_shared_state, disconnect_shared_state, rehydrate, attempt, open_scope,
}
use litenyx.Spend.Lookup.{contains}
use litenyx.Spend.Attempt.{Unspent, DistinctOps, attempt_iff, attempt_effect}
use litenyx.Spend.Reorg.{
  Later, now, tried, undone, disconnect-attempt, attempt_conflict, start, extend, readable,
  rehydrate-Connected, no_scope, doubled, fallback_accepts_doubled,
}

abbrev first : OutPoint
first = record { hash = 7; n = 0 }

abbrev second : OutPoint
second = record { hash = 7; n = 1 }

abbrev block_a : SpendBlock
block_a = record {
  chain_id = 0;
  vtx =
      record { is_coinbase = true; vin = second ∷ [] }
      ∷ record { is_coinbase = false; vin = first ∷ second ∷ [] }
      ∷ [];
}

abbrev block_b : SpendBlock
block_b = record { chain_id = 1; vtx = record { is_coinbase = false; vin = second ∷ [] } ∷ [] }

abbrev clean : World
clean = no_scope empty

block_a_connects : (attempt clean block_a true).1 ≡ true
unfolding attempt connect_shared_state open_scope spends stage_inputs stage_spend staged_here
    is_spent
block_a_connects = refl

attempt_iff_example :
    ((attempt clean block_a true).1 ≡ true)
    ↔ ((true ≡ true) × Unspent empty (spends block_a.vtx) × DistinctOps (spends block_a.vtx))
attempt_iff_example = attempt_iff clean block_a true

attempt_effect_example :
    ((attempt clean block_a true).0.scopes ≡ [])
    × ((j : OutPoint)
        → (attempt clean block_a true).0.live j ≡ (
            if (attempt clean block_a true).1 && contains (spends block_a.vtx) j
            then some (u8 0)
            else none))
attempt_effect_example = attempt_effect clean block_a true

disconnect-attempt_example : disconnect_shared_state (attempt clean block_a true).0 block_a ≡ clean
disconnect-attempt_example = disconnect-attempt clean block_a true block_a_connects

abbrev block_c : SpendBlock
block_c = record {
  chain_id = 1;
  vtx = record { is_coinbase = false; vin = record { hash = 9; n = 0 } ∷ [] } ∷ [];
}

-- Another block is connected and disconnected in between.
abbrev meanwhile : World
meanwhile = disconnect_shared_state (attempt (attempt clean block_a true).0 block_c true).0 block_c

meanwhile-Later : Later second (attempt clean block_a true).0 meanwhile
unfolding spends contains
meanwhile-Later = undone (tried now block_c true) block_c refl

attempt_conflict_example : (attempt meanwhile block_b true).1 ≡ false
unfolding spends contains
attempt_conflict_example =
    attempt_conflict clean meanwhile block_a block_b true true second block_a_connects refl
      meanwhile-Later refl

rehydrate-Connected_example :
    ((rehydrate (attempt clean block_b true).0 (readable (block_a ∷ []))).0.live
      ≡ (attempt clean block_a true).0.live)
    × ((rehydrate (attempt clean block_b true).0 (readable (block_a ∷ []))).1 ≡ true)
rehydrate-Connected_example =
    rehydrate-Connected clean (attempt clean block_a true).0 (attempt clean block_b true).0
      (block_a ∷ []) refl (extend start block_a block_a_connects)

fallback_accepts_doubled_example :
    ((connect_shared_state (no_scope empty) (doubled 1 first)).1 ≡ true)
    × ((attempt (no_scope empty) (doubled 1 first) true).1 ≡ false)
fallback_accepts_doubled_example = fallback_accepts_doubled empty 1 first refl
