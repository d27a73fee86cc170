-- ===== src/Cooldowns/Tests.antt =====
-- Runs of the cooldown manager, and the theorems at concrete inputs.
use astroid_club.Prelude.{
  List, Option, [], arith, false, if◌then◌else◌, ltb, nat_eq, none, refl, some, true, ℕ, ◌-◌, ◌==◌,
  ◌∷◌, ◌≡◌,
}
use astroid_club.Cooldowns.{
  CooldownType, expedition_start, rally_defense, type_eq, minutes_only, any, find, filter,
  remove_first, new_manager, default_duration, apply_cooldown, clean_wallet, clean_loop,
  has_cooldown, get_remaining_cooldown, check_action, wait_for, cleanup_expired, type_beq,
}
use astroid_club.Cooldowns.Deadlines.{
  Event, applies, cleans, after, apply, duration_of, deadline, CleanedBy,
}
use astroid_club.Cooldowns.Queries.{Tells, cooldown_deadline, check_action_wait}

-- Expeditions start a minute apart in this deployment.
abbrev overrides : CooldownType → Option ℕ
overrides t = if t == expedition_start then some 60000 else none

-- Newest first: wallet 1 starts an expedition twice, and wallet 2 rallies.
abbrev calls : List Event
calls =
    cleans 70000
    ∷ applies 61000 1 expedition_start
    ∷ applies 5000 2 rally_defense
    ∷ applies 0 1 expedition_start
    ∷ []

still_cooling : has_cooldown 120000 1 expedition_start (after overrides calls) ≡ true
unfolding has_cooldown any after apply apply_cooldown cleanup_expired clean_loop clean_wallet filter
    remove_first new_manager default_duration type_beq
still_cooling = refl

cooled_down : has_cooldown 121000 1 expedition_start (after overrides calls) ≡ false
unfolding has_cooldown any after apply apply_cooldown cleanup_expired clean_loop clean_wallet filter
    remove_first new_manager default_duration type_beq
cooled_down = refl

rally_wait :
    check_action 80000 2 rally_defense (after overrides calls)
    ≡ some (rally_defense, minutes_only 59)
unfolding check_action wait_for has_cooldown get_remaining_cooldown any find after apply
    apply_cooldown cleanup_expired clean_loop clean_wallet filter remove_first new_manager
    default_duration type_beq
rally_wait = refl

cooldown_deadline_example :
    let d = deadline (duration_of overrides) 1 expedition_start calls in
    (has_cooldown 90000 1 expedition_start (after overrides calls) ≡ ltb 90000 d)
    × (get_remaining_cooldown 90000 1 expedition_start (after overrides calls) ≡ d - 90000)
unfolding CleanedBy
cooldown_deadline_example =
    cooldown_deadline overrides 90000 1 expedition_start calls (omega arith, tt)

check_action_wait_example :
    Tells 90000
      (deadline (duration_of overrides) 2 rally_defense calls)
      rally_defense
      (check_action 90000 2 rally_defense (after overrides calls))
unfolding CleanedBy
check_action_wait_example =
    check_action_wait overrides 90000 2 rally_defense calls (omega arith, tt)
