-- ===== src/HolderTracker.antt =====
-- server/verification/holder-tracker.ts: eligibility of a wallet with the flash-loan guard. Times
-- and the clock's value are whole milliseconds and an argument of each call; a balance is a whole
-- number or one that is not finite.
pub mod Trace
pub mod Guard
mod Tests
use astroid_club.Prelude.Result.{Result, ok, err, ◌>>=◌}
use astroid_club.Prelude.{
  All, Bool, Bool-cases, Eq, List, Option, Option-cases, [], ap, arith, false, get_or, holds,
  if◌then◌else◌, inl, inr, is_some, leb, length, length-append, ltb, map, max, min, nat_beq_iff,
  nat_eq, none, not, refl, some, subst, suc, sum_by, sum_by-append, sym, true, zero, ℕ, ◌%◌, ◌&&◌,
  ◌*◌, ◌++◌, ◌+◌, ◌-◌, ◌/◌, ◌<◌, ◌==◌, ◌||◌, ◌↔◌, ◌∙◌, ◌∷◌, ◌≡◌, ◌≢◌, ◌≤◌, ◌⊎◌,
}
use astroid_club.Prelude.Int.{ℤ, pos, negsuc, ◌-ℤ◌, leb_ℤ, Number, finite, not_finite}
use astroid_club.JsMap.{JsMap, get, set, has, delete}

-- `BalanceObservation`
pub record Observation : Type 0 where
  pub first_seen : ℤ
  pub last_balance : ℕ
  pub consecutive : ℕ

pub data Reason : Type 0 where
  below_threshold flash_loan_guard : Reason

-- `EligibilityDecision`, without the three fields that are the arguments again. The reason is
-- absent where the wallet is eligible.
pub record Decision : Type 0 where
  pub eligible : Bool
  pub meets_balance : Bool
  pub reason : Option Reason
  pub hold_duration : ℤ
  pub remaining_hold : ℤ
  pub consecutive : ℕ

pub record Config : Type 0 where
  pub min_hold : ℕ
  pub min_consecutive : ℕ

pub record Tracker : Type 0 where
  pub config : Config
  pub open config use *
  pub history : JsMap ℕ Observation

-- What the methods throw.
pub data Error : Type 0 where
  bad_min_hold bad_min_consecutive bad_balance bad_required bad_hold_start : Error

-- `!Number.isFinite(x) || x < 0`
abbrev pub require_nonneg : Error → Number → Result Error ℕ
require_nonneg e (finite (pos n)) = ok n
require_nonneg e (finite (negsuc n)) = err e
require_nonneg e not_finite = err e

abbrev pub require_finite : Error → Number → Result Error ℤ
require_finite e (finite z) = ok z
require_finite e not_finite = err e

-- The constructor, over the values that its defaults have filled in.
pub make_tracker : ℤ → ℤ → Result Error Tracker
make_tracker (negsuc n) k = err bad_min_hold
make_tracker (pos hold) (negsuc n) = err bad_min_consecutive
make_tracker (pos hold) (pos k) =
    if ltb k 1
    then err bad_min_consecutive
    else ok (record { config = record { min_hold = hold; min_consecutive = k }; history = [] })

-- `Math.max(0, z)`
abbrev pub at_least_zero : ℤ → ℤ
at_least_zero (pos n) = pos n
at_least_zero (negsuc n) = pos 0

-- The record after an observation above the threshold.
abbrev pub observed : ℕ → ℕ → Option Observation → Observation
observed now balance none = record { first_seen = pos now; last_balance = balance; consecutive = 1 }
observed now balance (some h) = record h { last_balance = balance; consecutive = h.consecutive + 1 }

pub decide : Config → ℕ → Observation → Decision
decide c now h =
    let held = pos now -ℤ h.first_seen in
    if leb_ℤ (pos c.min_hold) held || leb c.min_consecutive h.consecutive
    then record {
      eligible = true;
      meets_balance = true;
      reason = none;
      hold_duration = held;
      remaining_hold = pos 0;
      consecutive = h.consecutive;
    }
    else record {
      eligible = false;
      meets_balance = true;
      reason = some flash_loan_guard;
      hold_duration = held;
      remaining_hold = at_least_zero (pos c.min_hold -ℤ held);
      consecutive = h.consecutive;
    }

pub below : Config → Decision
below c = record {
  eligible = false;
  meets_balance = false;
  reason = some below_threshold;
  hold_duration = pos 0;
  remaining_hold = pos c.min_hold;
  consecutive = 0;
}

-- The body of `recordObservation` behind its two guards.
unfoldable pub observe : ℕ → ℕ → ℕ → ℕ → Tracker → Tracker × Decision
unfolding decide below
observe now w balance required t =
    if leb required balance
    then (let h = observed now balance (get w t.history) in
        (record t { history = set w h t.history }, decide t.config now h))
    else (record t { history = delete w t.history }, below t.config)

-- `recordObservation`
pub record_observation : ℕ → ℕ → Number → Number → Tracker → Result Error (Tracker × Decision)
unfolding observe
record_observation now w balance required t = do
  b ← require_nonneg bad_balance balance
  r ← require_nonneg bad_required required
  ok (observe now w b r t)

-- `Math.min(holdStartMs, now)`
abbrev pub clamp_start : ℤ → ℕ → ℤ
clamp_start (pos n) now = pos (min n now)
clamp_start (negsuc n) now = negsuc n

-- The body of `seedHoldStart` behind its two guards.
unfoldable pub seed : ℕ → ℕ → ℤ → ℕ → Tracker → Tracker × Bool
seed now w start balance t = if has w t.history then (t, false) else (
  record t {
    history =
        set w
          (record { first_seen = clamp_start start now; last_balance = balance; consecutive = 1 })
          t.history;
  },
  true,
)

-- `seedHoldStart`
pub seed_hold_start : ℕ → ℕ → Number → Number → Tracker → Result Error (Tracker × Bool)
unfolding seed
seed_hold_start now w start balance t = do
  s ← require_finite bad_hold_start start
  b ← require_nonneg bad_balance balance
  ok (seed now w s b t)

pub get_history : ℕ → Tracker → Option Observation
get_history w t = get w t.history

unfoldable pub clear : ℕ → Tracker → Tracker
clear w t = record t { history = delete w t.history }

unfoldable pub clear_all : Tracker → Tracker
clear_all t = record t { history = [] }
