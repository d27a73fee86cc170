-- ===== src/Cooldowns/Deadlines.antt =====
-- The cooldown manager against the history of its calls: the deadline of each wallet and type.
use astroid_club.Prelude.{
  List, Option, Option-cases, [], arith, if◌then◌else◌, inl, inr, nat_eq, refl, ℕ, ◌&&◌, ◌+◌, ◌-◌,
  ◌==◌, ◌∷◌, ◌≡◌, ◌≤◌,
}
use astroid_club.JsMap.{get, IsUnique}
use astroid_club.JsMap.Laws.{get-set, get-delete, set-IsUnique, delete-IsUnique}
use astroid_club.Cooldowns.{
  CooldownType, Cooldown, Manager, type_eq, type_beq_iff, new_manager, is_of, is_live, remove_first,
  apply_cooldown, clear_cooldown, clear_all_cooldowns, cleanup_expired,
}
use astroid_club.Cooldowns.Lists.{
  count, due, due-absent, renewed, count-renewed, due-renewed, count-remove_first, due-remove_first,
  count-filter, due-filter,
}
use astroid_club.Cooldowns.Cleanup.{cooldowns_of, cooldowns_of-cleanup, cleanup-IsUnique}

-- A call, with the clock at that moment.
pub data Event : Type 0 where
  applies : (now w : ℕ) → CooldownType → Event
  clears : ℕ → CooldownType → Event
  clears_all cleans : ℕ → Event

unfoldable pub apply : Event → Manager → Manager
apply (applies now w t) m = apply_cooldown now w t m
apply (clears w t) m = clear_cooldown w t m
apply (clears_all w) m = clear_all_cooldowns w m
apply (cleans now) m = (cleanup_expired now m).0

-- The manager after a history (newest first).
unfoldable pub after : (CooldownType → Option ℕ) → List Event → Manager
after o [] = new_manager o
after o (e ∷ older) = apply e (after o older)

unfoldable pub duration_of : (CooldownType → Option ℕ) → CooldownType → ℕ
duration_of o = (new_manager o).durations

-- The end of the last cooldown that a history applies and does not clear, 0 where there is none.
pub deadline : (CooldownType → ℕ) → ℕ → CooldownType → List Event → ℕ
deadline d w t [] = 0
deadline d w t (applies now v u ∷ older) =
    let rest = deadline d w t older in if v == w && u == t then now + d t else rest
deadline d w t (clears v u ∷ older) =
    let rest = deadline d w t older in if v == w && u == t then 0 else rest
deadline d w t (clears_all v ∷ older) =
    let rest = deadline d w t older in if v == w then 0 else rest
deadline d w t (cleans now ∷ older) = deadline d w t older

-- No cleanup of the history is later than an instant.
unfoldable pub CleanedBy : ℕ → List Event → Type 0
CleanedBy now [] = Unit
CleanedBy now (applies at w t ∷ older) = CleanedBy now older
CleanedBy now (clears w t ∷ older) = CleanedBy now older
CleanedBy now (clears_all w ∷ older) = CleanedBy now older
CleanedBy now (cleans at ∷ older) = (at ≤ now) × CleanedBy now older

-- Each wallet is listed once, with at most one cooldown of each type.
pub record Sound (m : Manager) : Type 0 where
  pub unique : IsUnique m.cooldowns
  pub single : (w : ℕ) (t : CooldownType) → count t (cooldowns_of w m) ≤ 1

cooldowns_of-apply :
    (now v w : ℕ) (t : CooldownType) (m : Manager)
    → let c : Cooldown = record { wallet = w; kind = t; expires_at = now + m.durations t } in
      cooldowns_of v (apply_cooldown now w t m)
      ≡ (if v == w then renewed c (cooldowns_of w m) else cooldowns_of v m)
unfolding apply_cooldown
cooldowns_of-apply now v w t m =
    let c : Cooldown = record { wallet = w; kind = t; expires_at = now + m.durations t } in
    ground (arith, get-set v w (renewed c (cooldowns_of w m)) m.cooldowns)

cooldowns_of-clear :
    (v w : ℕ) (t : CooldownType) (m : Manager)
    → cooldowns_of v (clear_cooldown w t m)
      ≡ (if v == w then remove_first (is_of t) (cooldowns_of w m) else cooldowns_of v m)
unfolding clear_cooldown remove_first
cooldowns_of-clear v w t m =
    ground (arith, get-set v w (remove_first (is_of t) (cooldowns_of w m)) m.cooldowns)

cooldowns_of-clear_all :
    (v w : ℕ) (m : Manager)
    → cooldowns_of v (clear_all_cooldowns w m) ≡ (if v == w then [] else cooldowns_of v m)
unfolding clear_all_cooldowns
cooldowns_of-clear_all v w m = ground (arith, get-delete v w m.cooldowns)

clear_cooldown-IsUnique :
    (w : ℕ) (t : CooldownType) (m : Manager)
    → IsUnique m.cooldowns
    → IsUnique (clear_cooldown w t m).cooldowns
unfolding clear_cooldown
clear_cooldown-IsUnique w t m u = elim (Option-cases (get w m.cooldowns)) [
  | inl e ↦ rw (clear_cooldown, e) u
  | inr (cs, e) ↦ rw (clear_cooldown, e) (set-IsUnique w (remove_first (is_of t) cs) m.cooldowns u)
]

clear_all-IsUnique :
    (w : ℕ) (m : Manager) → IsUnique m.cooldowns → IsUnique (clear_all_cooldowns w m).cooldowns
unfolding clear_all_cooldowns
clear_all-IsUnique w m u = delete-IsUnique w m.cooldowns u

-- Every call keeps a sound manager sound.
pub apply-Sound : (e : Event) (m : Manager) → Sound m → Sound (apply e m)
unfolding apply apply_cooldown
apply-Sound (applies now w t) m s =
    let c : Cooldown = record { wallet = w; kind = t; expires_at = now + m.durations t } in
    record {
      unique = set-IsUnique w (renewed c (cooldowns_of w m)) m.cooldowns s.unique;
      single = λ v u. ground (
        arith,
        s.single v u,
        cooldowns_of-apply now v w t m,
        count-renewed u c (cooldowns_of w m) (s.single w u),
      );
    }
apply-Sound (clears w t) m s = record {
  unique = clear_cooldown-IsUnique w t m s.unique;
  single = λ v u. ground (
    arith,
    s.single v u,
    s.single w u,
    cooldowns_of-clear v w t m,
    count-remove_first u t (cooldowns_of w m),
  );
}
apply-Sound (clears_all w) m s = record {
  unique = clear_all-IsUnique w m s.unique;
  single = λ v u. ground (arith, s.single v u, cooldowns_of-clear_all v w m);
}
apply-Sound (cleans now) m s = record {
  unique = cleanup-IsUnique now m s.unique;
  single = λ v u. ground (
    arith,
    s.single v u,
    cooldowns_of-cleanup now v m s.unique,
    count-filter u (is_live now) (cooldowns_of v m),
  );
}

pub after-Sound : (o : CooldownType → Option ℕ) (es : List Event) → Sound (after o es)
unfolding after new_manager
after-Sound o [] = record { unique = tt; single = λ w t. omega arith }
after-Sound o (e ∷ es) = apply-Sound e (after o es) (after-Sound o es)

after-durations :
    (o : CooldownType → Option ℕ) (es : List Event) (t : CooldownType)
    → (after o es).durations t ≡ duration_of o t
unfolding after duration_of apply apply_cooldown clear_cooldown clear_all_cooldowns cleanup_expired
after-durations o [] t = refl
after-durations o (applies now w u ∷ es) t = after-durations o es t
after-durations o (clears w u ∷ es) t = ground (arith, after-durations o es t)
after-durations o (clears_all w ∷ es) t = after-durations o es t
after-durations o (cleans now ∷ es) t = after-durations o es t

-- What is left of the expiry that the manager keeps is what is left of the history's deadline.
pub due-after :
    (o : CooldownType → Option ℕ) (now w : ℕ) (t : CooldownType) (es : List Event)
    → CleanedBy now es
    → due t (cooldowns_of w (after o es)) - now ≡ deadline (duration_of o) w t es - now
unfolding after deadline CleanedBy new_manager apply
due-after o now w t [] h = ground (arith, due-absent t [] refl)
due-after o now w t (applies at v u ∷ es) h =
    let m = after o es in
    let c : Cooldown = record { wallet = v; kind = u; expires_at = at + m.durations u } in
    ground (
      arith,
      due-after o now w t es h,
      type_beq_iff u t,
      after-durations o es u,
      cooldowns_of-apply at w v u m,
      due-renewed t c (cooldowns_of v m) ((after-Sound o es).single v t),
    )
due-after o now w t (clears v u ∷ es) h = ground (
  arith,
  due-after o now w t es h,
  type_beq_iff u t,
  type_beq_iff t u,
  cooldowns_of-clear w v u (after o es),
  due-remove_first t u (cooldowns_of v (after o es)) ((after-Sound o es).single v t),
)
due-after o now w t (clears_all v ∷ es) h =
    ground (
      arith,
      due-after o now w t es h,
      due-absent t [] refl,
      cooldowns_of-clear_all w v (after o es),
    )
due-after o now w t (cleans at ∷ es) h = ground (
  arith,
  h.0,
  due-after o now w t es h.1,
  cooldowns_of-cleanup at w (after o es) (after-Sound o es).unique,
  due-filter at t (cooldowns_of w (after o es)) ((after-Sound o es).single w t),
)
