-- ===== src/Cooldowns.antt =====
-- server/game/cooldowns.ts: the cooldowns of game actions. Wallets are opaque keys, instants and
-- durations whole milliseconds; the clock is an argument. The list of a wallet, which the code
-- changes in place, is replaced under its key.
pub mod Lists
pub mod Cleanup
pub mod Deadlines
pub mod Queries
mod Tests
use astroid_club.Prelude.{
  All, Bool, Bool-cases, Eq, List, Option, Option-cases, [], ap, arith, false, get_or, holds,
  if◌then◌else◌, inl, inr, is_some, leb, length, length-append, ltb, map, max, min, nat_beq_iff,
  nat_eq, none, not, refl, some, subst, suc, sum_by, sum_by-append, sym, true, zero, ℕ, ◌%◌, ◌&&◌,
  ◌*◌, ◌++◌, ◌+◌, ◌-◌, ◌/◌, ◌<◌, ◌==◌, ◌||◌, ◌↔◌, ◌∙◌, ◌∷◌, ◌≡◌, ◌≢◌, ◌≤◌, ◌⊎◌,
}
use astroid_club.JsMap.{JsMap, get, set, delete}

pub data CooldownType : Type 0 where
  home_station_switch expedition_start expedition_recovery rally_defense : CooldownType

pub type_beq : CooldownType → CooldownType → Bool
type_beq home_station_switch home_station_switch = true
type_beq expedition_start expedition_start = true
type_beq expedition_recovery expedition_recovery = true
type_beq rally_defense rally_defense = true
type_beq _ _ = false

pub type_beq_iff : (a b : CooldownType) → (type_beq a b ≡ true) ↔ (a ≡ b)
unfolding type_beq
type_beq_iff a b = ground arith

instance abbrev pub type_eq : Eq CooldownType
type_eq = record { beq = type_beq; beq_iff = type_beq_iff }

pub record Cooldown : Type 0 where
  pub wallet : ℕ
  pub kind : CooldownType
  pub expires_at : ℕ

-- `COOLDOWN_DURATIONS`
pub default_duration : CooldownType → ℕ
default_duration home_station_switch = 24 * 60 * 60 * 1000
default_duration expedition_start = 10 * 60 * 1000
default_duration expedition_recovery = 5 * 60 * 1000
default_duration rally_defense = 60 * 60 * 1000

pub record Manager : Type 0 where
  pub cooldowns : JsMap ℕ (List Cooldown)
  pub durations : CooldownType → ℕ

-- The constructor. The configuration overrides the durations of some types.
unfoldable pub new_manager : (CooldownType → Option ℕ) → Manager
unfolding default_duration
new_manager overrides = record {
  cooldowns = [];
  durations = λ t. get_or (overrides t) (default_duration t);
}

-- `cd.expiresAt > now`
abbrev pub is_live : ℕ → Cooldown → Bool
is_live now c = ltb now c.expires_at

abbrev pub is_of : CooldownType → Cooldown → Bool
is_of t c = c.kind == t

-- `some`, `find` and `filter` of an array, and `findIndex` with `splice`.
pub any {ℓ} : {A : Type ℓ} → (A → Bool) → List A → Bool
any f [] = false
any f (x ∷ xs) = f x || any f xs

pub find {ℓ} : {A : Type ℓ} → (A → Bool) → List A → Option A
find f [] = none
find f (x ∷ xs) = if f x then some x else find f xs

pub filter {ℓ} : {A : Type ℓ} → (A → Bool) → List A → List A
filter f [] = []
filter f (x ∷ xs) = let rest = filter f xs in if f x then x ∷ rest else rest

pub remove_first {ℓ} : {A : Type ℓ} → (A → Bool) → List A → List A
remove_first f [] = []
remove_first f (x ∷ xs) = if f x then xs else x ∷ remove_first f xs

unfoldable pub has_cooldown : ℕ → ℕ → CooldownType → Manager → Bool
unfolding any
has_cooldown now w t m = elim (get w m.cooldowns) [
  | none ↦ false
  | some cs ↦ any (λ c. is_of t c && is_live now c) cs
]

unfoldable pub get_remaining_cooldown : ℕ → ℕ → CooldownType → Manager → ℕ
unfolding find
get_remaining_cooldown now w t m = elim (get w m.cooldowns) [
  | none ↦ 0
  | some cs ↦ elim (find (λ c. is_of t c && is_live now c) cs) [
    | none ↦ 0
    | some c ↦ c.expires_at - now
  ]
]

unfoldable pub apply_cooldown : ℕ → ℕ → CooldownType → Manager → Manager
unfolding remove_first
apply_cooldown now w t m =
    let cs = get_or (get w m.cooldowns) [] in
    let c : Cooldown = record { wallet = w; kind = t; expires_at = now + m.durations t } in
    record m { cooldowns = set w (remove_first (is_of t) cs ++ (c ∷ [])) m.cooldowns }

unfoldable pub clear_cooldown : ℕ → CooldownType → Manager → Manager
unfolding remove_first
clear_cooldown w t m = elim (get w m.cooldowns) [
  | none ↦ m
  | some cs ↦ record m { cooldowns = set w (remove_first (is_of t) cs) m.cooldowns }
]

unfoldable pub clear_all_cooldowns : ℕ → Manager → Manager
clear_all_cooldowns w m = record m { cooldowns = delete w m.cooldowns }

unfoldable pub get_active_cooldowns : ℕ → ℕ → Manager → List Cooldown
unfolding filter
get_active_cooldowns now w m = filter (is_live now) (get_or (get w m.cooldowns) [])

-- The body of the loop of `cleanupExpired`.
unfoldable pub clean_wallet :
    ℕ → ℕ → List Cooldown → JsMap ℕ (List Cooldown) → JsMap ℕ (List Cooldown)
unfolding filter
clean_wallet now w cs m =
    let live = filter (is_live now) cs in if length live == 0 then delete w m else set w live m

-- The loop, over the entries that the map has at its start, with the number of those dropped.
pub clean_loop :
    ℕ → JsMap ℕ (List Cooldown) → JsMap ℕ (List Cooldown) × ℕ → JsMap ℕ (List Cooldown) × ℕ
unfolding clean_wallet filter
clean_loop now [] (m, n) = (m, n)
clean_loop now ((w, cs) ∷ rest) (m, n) =
    clean_loop now rest
      (clean_wallet now w cs m, n + (length cs - length (filter (is_live now) cs)))

unfoldable pub cleanup_expired : ℕ → Manager → Manager × ℕ
unfolding clean_loop
cleanup_expired now m =
    let r = clean_loop now m.cooldowns (m.cooldowns, 0) in (record m { cooldowns = r.0 }, r.1)

-- The message of a blocked action: its label and `${hours}h ${minutes % 60}m` or `${minutes}m`.
pub data Wait : Type 0 where
  hours_minutes : ℕ → ℕ → Wait
  minutes_only : ℕ → Wait

pub wait_for : ℕ → Wait
wait_for remaining =
    let minutes = (remaining + 59999) / 60000 in
    let hours = minutes / 60 in
    if ltb 0 hours then hours_minutes hours (minutes % 60) else minutes_only minutes

unfoldable pub check_action : ℕ → ℕ → CooldownType → Manager → Option (CooldownType × Wait)
unfolding has_cooldown get_remaining_cooldown wait_for
check_action now w t m =
    if has_cooldown now w t m then some (t, wait_for (get_remaining_cooldown now w t m)) else none
