-- ===== src/Tracker/Tests.antt =====
-- Runs of the tracker, and its theorems at concrete inputs.
use litenyx.Common.{ℕ, ◌+◌, ◌%◌, ◌≡◌, ◌≢◌, refl, inl, [], ◌∷◌, arith, replicate}
use litenyx.Common.Int.{pos, i32}
use litenyx.Topology.{
  hold, topo_decide, in_cooldown, decide_by_load, clamp_chains, aggregate_load, sum_m_c,
  transition_height, topo_apply,
}
use litenyx.Tracker.{
  Tracker, new_tracker, insert, connect, disconnect, finalize, observations, observe_loop,
  observe_chain, transition,
}
use litenyx.Tracker.Invariant.{
  IsValid, fresh, after, connect_step, disconnect_step, Reachable-IsValid,
}
use litenyx.Tracker.Rollback.{IsSynced, disconnect-finalize}
use litenyx.Tracker.Growth.{rounds, rounds-grow}

abbrev full : Tracker
full = record {
  n_chains = 3;
  last_transition = 400;
  transitions = (400, 3) ∷ [];
  sum_m = pos 90 ∷ pos 95 ∷ pos 100 ∷ replicate 5 (pos 0);
  cnt_m = 1 ∷ 1 ∷ 1 ∷ replicate 5 0;
}

full_moves : (finalize full 700).transitions ≡ (400, 3) ∷ (900, 4) ∷ []
unfolding finalize observations observe_loop observe_chain topo_decide in_cooldown decide_by_load
    clamp_chains aggregate_load sum_m_c transition_height topo_apply transition insert i32
full_moves = refl

full_splits : topo_decide (observations full) 3 700 400 ≢ hold
unfolding observations observe_loop observe_chain topo_decide in_cooldown decide_by_load
    clamp_chains aggregate_load sum_m_c i32
full_splits = ground arith

full-IsSynced : IsSynced full
full-IsSynced = record { ascends = omega arith; chains = refl; height = refl }

height_900 : transition_height 700 ≡ 900
unfolding transition_height
height_900 = refl

disconnect-finalize_example :
    ((900 ≡ transition_height 700) → disconnect (finalize full 700) 0 900 (pos 5) ≡ full)
    × ((900 ≢ transition_height 700)
        → disconnect (finalize full 700) 0 900 (pos 5) ≡ finalize full 700)
disconnect-finalize_example =
    disconnect-finalize full 700 full-IsSynced (omega arith) full_splits 0 900 (pos 5) (omega arith)

Reachable-IsValid_example : IsValid (disconnect (connect new_tracker 1 100 (pos 90)) 1 100 (pos 90))
Reachable-IsValid_example = Reachable-IsValid (
    after (after fresh (connect_step new_tracker 1 100 (pos 90)))
      (disconnect_step (connect new_tracker 1 100 (pos 90)) 1 100 (pos 90)))

abbrev new_tracker-IsValid : IsValid new_tracker
new_tracker-IsValid = record { range = omega arith; sums = refl; cnts = refl; sorted = tt }

-- Each chain and each window with its own pressure, between 90 and 99.
abbrev mixed : ℕ → ℕ → ℕ
mixed i j = 90 + (i + j) % 10

rounds-grow_example : (rounds new_tracker mixed 1000 6).n_chains ≡ 8
rounds-grow_example =
    rounds-grow new_tracker 1000 6 mixed
      (record { valid = new_tracker-IsValid; no_sums = refl; no_cnts = refl; over = inl refl })
      (λ i j. (omega arith, omega arith)) (omega arith)
