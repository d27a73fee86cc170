-- ===== src/Cooldowns/Queries.antt =====
-- What the queries of the cooldown manager answer after any history of calls.
use astroid_club.Prelude.{
  List, Option, [], arith, ltb, nat_eq, none, refl, some, ℕ, ◌*◌, ◌+◌, ◌-◌, ◌<◌, ◌≡◌, ◌≤◌,
}
use astroid_club.Cooldowns.{
  CooldownType, Manager, type_eq, Wait, hours_minutes, minutes_only, has_cooldown,
  get_remaining_cooldown, check_action, wait_for,
}
use astroid_club.Cooldowns.Lists.{due, any-due, find-due, due-absent}
use astroid_club.Cooldowns.Cleanup.{cooldowns_of}
use astroid_club.Cooldowns.Deadlines.{
  Event, Sound, after, duration_of, deadline, CleanedBy, after-Sound, due-after,
}

has_cooldown-due :
    (now w : ℕ) (t : CooldownType) (m : Manager)
    → Sound m
    → has_cooldown now w t m ≡ ltb now (due t (cooldowns_of w m))
unfolding has_cooldown
has_cooldown-due now w t m s =
    ground (arith, any-due now t (cooldowns_of w m) (s.single w t), due-absent t [] refl)

remaining-due :
    (now w : ℕ) (t : CooldownType) (m : Manager)
    → Sound m
    → get_remaining_cooldown now w t m ≡ due t (cooldowns_of w m) - now
unfolding get_remaining_cooldown
remaining-due now w t m s =
    ground (arith, find-due now t (cooldowns_of w m) (s.single w t), due-absent t [] refl)

-- After any history of calls whose cleanups are not in the future, a wallet has a cooldown of a type
-- exactly until the deadline that the history gives it, the end of the last one applied and not
-- cleared, and what remains is the time until then.
pub cooldown_deadline :
    (o : CooldownType → Option ℕ) (now w : ℕ) (t : CooldownType) (es : List Event)
    → CleanedBy now es
    → let d = deadline (duration_of o) w t es in
      (has_cooldown now w t (after o es) ≡ ltb now d)
      × (get_remaining_cooldown now w t (after o es) ≡ d - now)
cooldown_deadline o now w t es h =
    let m = after o es in
    let s = after-Sound o es in
    let d = due-after o now w t es h in
    ground (arith, d, has_cooldown-due now w t m s, remaining-due now w t m s)

-- The milliseconds of the wait that a message names.
abbrev pub told : Wait → ℕ
told (hours_minutes h n) = (h * 60 + n) * 60000
told (minutes_only n) = n * 60000

wait_for-covers : (r : ℕ) → (r ≤ told (wait_for r)) × (told (wait_for r) < r + 60000)
unfolding wait_for
wait_for-covers r = ground arith

-- What the answer of `checkAction` has to say of a deadline.
abbrev pub Tells : ℕ → ℕ → CooldownType → Option (CooldownType × Wait) → Type 0
Tells now d t none = d ≤ now
Tells now d t (some (u, wait)) =
    (now < d) × (u ≡ t) × (d ≤ now + told wait) × (now + told wait < d + 60000)

-- After any history whose cleanups are not in the future, an action is blocked exactly until the
-- deadline of its cooldown, and the wait that the message names is the remaining one rounded up to a
-- whole minute.
pub check_action_wait :
    (o : CooldownType → Option ℕ) (now w : ℕ) (t : CooldownType) (es : List Event)
    → CleanedBy now es
    → Tells now (deadline (duration_of o) w t es) t (check_action now w t (after o es))
unfolding check_action
check_action_wait o now w t es h =
    let k = cooldown_deadline o now w t es h in
    ground (arith, k, wait_for-covers (get_remaining_cooldown now w t (after o es)))
