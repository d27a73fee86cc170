-- ===== src/HolderTracker/Tests.antt =====
-- Runs of the holder tracker, and its theorems at concrete histories.
use astroid_club.Prelude.Result.{err}
use astroid_club.Prelude.{List, [], arith, nat_eq, refl, some, true, ◌↔◌, ◌∷◌, ◌≡◌, ◌≤◌, ◌⊎◌}
use astroid_club.Prelude.Int.{pos, finite, not_finite}
use astroid_club.HolderTracker.{
  Config, bad_balance, bad_min_consecutive, make_tracker, observe, record_observation, get_history,
  decide, seed,
}
use astroid_club.HolderTracker.Trace.{
  Event, observes, seeds, after, fresh, apply, since_drop, sightings, held_from, start_of, count_of,
  record_of_history,
}
use astroid_club.HolderTracker.Guard.{
  NoDrop, continued, HeldLongEnough, eligible_iff, remaining_hold_suffices,
}

abbrev strict : Config
strict = record { min_hold = 600000; min_consecutive = 5 }

-- Newest first: wallet 1 dips below the threshold once; wallet 2 was pre-warmed.
abbrev history : List Event
history =
    observes 300000 1 80 50
    ∷ seeds 250000 2 (pos 1000) 90
    ∷ observes 200000 1 60 50
    ∷ observes 100000 1 40 50
    ∷ observes 0 1 70 50
    ∷ []

tracked :
    get_history 1 (after strict history)
    ≡ some (record { first_seen = pos 200000; last_balance = 80; consecutive = 2 })
unfolding get_history after fresh apply observe seed
tracked = refl

prewarmed_passes : (observe 700000 2 90 50 (after strict history)).1.eligible ≡ true
unfolding after fresh apply observe seed decide
prewarmed_passes = refl

not_finite_throws :
    record_observation 0 1 not_finite (finite (pos 50)) (fresh strict) ≡ err bad_balance
unfolding record_observation
not_finite_throws = refl

zero_observations_refused : make_tracker (pos 0) (pos 0) ≡ err bad_min_consecutive
unfolding make_tracker
zero_observations_refused = refl

eligible_iff_example : ((observe 800000 1 60 50 (after strict history)).1.eligible ≡ true) ↔ (
    (50 ≤ 60)
    × (HeldLongEnough strict 800000 (held_from 1 (since_drop 1 (observes 800000 1 60 50 ∷ history)))
        ⊎ (5 ≤ sightings 1 (since_drop 1 (observes 800000 1 60 50 ∷ history)))))
eligible_iff_example = eligible_iff strict history 800000 1 60 50

record_of_history_example :
    (start_of (get_history 1 (after strict history)) ≡ held_from 1 (since_drop 1 history))
    × (count_of (get_history 1 (after strict history)) ≡ sightings 1 (since_drop 1 history))
record_of_history_example = record_of_history strict 1 history

-- Another wallet dips, and the wallet is seen once more, in between.
abbrev between : List Event
between = observes 600000 1 55 50 ∷ observes 500000 2 10 50 ∷ []

remaining_hold_suffices_example :
    (observe 800000 1 60 50
      (continued (observe 400000 1 90 50 (after strict history)).0 between)).1.eligible
    ≡ true
unfolding after fresh apply observe seed decide NoDrop
remaining_hold_suffices_example =
    remaining_hold_suffices (after strict history) 400000 1 90 50 between 800000 60 50 (omega arith)
      (omega arith) (refl, (refl, tt)) (omega arith)
