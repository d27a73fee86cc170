-- ===== src/HolderTracker/Trace.antt =====
-- The holder tracker against the history of its calls. The history is what an observer of the
-- calls writes down, newest first; it never looks at the tracker's records.
use astroid_club.Prelude.{
  Bool, List, Option, [], arith, false, if◌then◌else◌, leb, ltb, max, nat_eq, none, refl, some,
  true, ℕ, ◌&&◌, ◌+◌, ◌==◌, ◌∷◌, ◌≡◌, ◌≤◌,
}
use astroid_club.Prelude.Int.{ℤ, pos}
use astroid_club.JsMap.{get}
use astroid_club.JsMap.Laws.{get-set, get-delete}
use astroid_club.HolderTracker.{
  Observation, Config, Tracker, observed, clamp_start, observe, seed, get_history, clear, clear_all,
}

-- A call with the arguments that passed its guards, and the clock at that moment.
pub data Event : Type 0 where
  observes : (now w balance required : ℕ) → Event
  seeds : (now w : ℕ) (start : ℤ) (balance : ℕ) → Event
  clears : ℕ → Event
  clears_all : Event

unfoldable pub apply : Event → Tracker → Tracker
apply (observes now w b r) t = (observe now w b r t).0
apply (seeds now w start b) t = (seed now w start b t).0
apply (clears w) t = clear w t
apply clears_all t = clear_all t

unfoldable pub fresh : Config → Tracker
fresh c = record { config = c; history = [] }

-- The tracker after a history (newest first).
unfoldable pub after : Config → List Event → Tracker
after c [] = fresh c
after c (e ∷ older) = apply e (after c older)

-- Whether an event ends the holding of a wallet.
abbrev pub drops : ℕ → Event → Bool
drops w (observes now v b r) = v == w && ltb b r
drops w (seeds now v start b) = false
drops w (clears v) = v == w
drops w clears_all = true

abbrev pub sees : ℕ → Event → Bool
sees w (observes now v b r) = v == w && leb r b
sees w (seeds now v start b) = false
sees w (clears v) = false
sees w clears_all = false

abbrev pub seeds_of : ℕ → Event → Bool
seeds_of w (seeds now v start b) = v == w
seeds_of w (observes now v b r) = false
seeds_of w (clears v) = false
seeds_of w clears_all = false

-- The part of a history since the last event that ended the wallet's holding.
pub since_drop : ℕ → List Event → List Event
since_drop w [] = []
since_drop w (e ∷ older) = let rest = e ∷ since_drop w older in if drops w e then [] else rest

-- How many observations above the threshold a run of events has, one more where a seed opened it.
pub sightings : ℕ → List Event → ℕ
sightings w [] = 0
sightings w (e ∷ older) =
    let n = sightings w older in if sees w e then n + 1 else if seeds_of w e then max n 1 else n

-- The instant from which a run of events shows the wallet as holding.
abbrev pub opening : ℕ → Event → Option ℤ
opening w (observes now v b r) = if v == w && leb r b then some (pos now) else none
opening w (seeds now v start b) = if v == w then some (clamp_start start now) else none
opening w (clears v) = none
opening w clears_all = none

pub held_from : ℕ → List Event → Option ℤ
held_from w [] = none
held_from w (e ∷ older) = elim (held_from w older) [ some t ↦ some t | none ↦ opening w e ]

abbrev pub start_of : Option Observation → Option ℤ
start_of none = none
start_of (some h) = some h.first_seen

abbrev pub count_of : Option Observation → ℕ
count_of none = 0
count_of (some h) = h.consecutive

abbrev Counted : Option Observation → Type 0
Counted none = Unit
Counted (some h) = 1 ≤ h.consecutive

-- A record says what a run of events dictates.
abbrev Records : ℕ → Option Observation → List Event → Type 0
Records w o run = (start_of o ≡ held_from w run) × (count_of o ≡ sightings w run) × Counted o

Records-after :
    (c : Config) (w : ℕ) (es : List Event)
    → Records w (get w (after c es).history) (since_drop w es)
unfolding after fresh since_drop held_from sightings apply observe seed clear clear_all
Records-after c w [] = (refl, refl, tt)
Records-after c w (observes now v b r ∷ es) = ground (
  arith,
  Records-after c w es,
  get-set w v (observed now b (get v (after c es).history)) (after c es).history,
  get-delete w v (after c es).history,
)
Records-after c w (seeds now v start b ∷ es) = ground (
  arith,
  Records-after c w es,
  get-set w v (record { first_seen = clamp_start start now; last_balance = b; consecutive = 1 })
      (after c es).history,
)
Records-after c w (clears v ∷ es) =
    ground (arith, Records-after c w es, get-delete w v (after c es).history)
Records-after c w (clears_all ∷ es) = (refl, refl, tt)

-- The record that the tracker keeps of a wallet is the one that the history since the last drop
-- dictates: the instant of its opening, and the number of sightings since.
pub record_of_history :
    (c : Config) (w : ℕ) (es : List Event)
    → let h = get_history w (after c es) in
      (start_of h ≡ held_from w (since_drop w es)) × (count_of h ≡ sightings w (since_drop w es))
unfolding get_history
record_of_history c w es = let r = Records-after c w es in (r.0, r.1)
