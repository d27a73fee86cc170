-- ===== src/StakeManager/Positions.antt =====
-- server/game/stake-manager.ts, lines 178 to 486, 529 to 580 and 710 to 749: the miners' states, the
-- stakes, the raid bookkeeping and the on-chain stakes. The asteroid registry is the shared object
-- that the class was given, so it is part of the state; the clock, and what the bet escrow reports
-- at an unstake, are arguments. A wallet's list, changed in place, is replaced under its key.
pub mod Books
pub mod Staking
pub mod History
use astroid_club.Prelude.{
  All, Bool, Bool-cases, Eq, List, Option, Option-cases, [], ap, arith, false, get_or, holds,
  if_keeps, if◌then◌else◌, inl, inr, is_some, leb, length, length-append, ltb, map, max, min,
  nat_beq_iff, nat_eq, none, not, refl, some, subst, suc, sum_by, sum_by-append, sym, true, zero, ℕ,
  ◌%◌, ◌&&◌, ◌*◌, ◌++◌, ◌+◌, ◌-◌, ◌/◌, ◌<◌, ◌==◌, ◌||◌, ◌↔◌, ◌∙◌, ◌∷◌, ◌≡◌, ◌≢◌, ◌≤◌, ◌⊎◌,
}
use astroid_club.Prelude.Int.{ℤ, pos, negsuc, Number, finite, not_finite}
use astroid_club.JsMap.{JsMap, JsSet, get, has, set, delete, add, size}
use astroid_club.Cooldowns.{Cooldown, filter}
use astroid_club.AsteroidRegistry.{Registry}
use astroid_club.AsteroidRegistry.Miners.{update_asteroid_stake}

-- `MinerGameState`
pub record Miner : Type 0 where
  pub home_station : Option ℕ
  pub active : Option ℕ
  pub expedition : Option ℕ
  pub total_stake : ℕ
  pub cooldowns : List Cooldown
  pub loyalty_days : ℕ
  pub joined_at : Option ℕ

abbrev pub new_miner : Miner
new_miner = record {
  home_station = none;
  active = none;
  expedition = none;
  total_stake = 0;
  cooldowns = [];
  loyalty_days = 0;
  joined_at = none;
}

-- `StakeRecord`
pub record Stake : Type 0 where
  pub asteroid : ℕ
  pub amount : ℕ
  pub staked_at : ℕ
  pub is_home : Bool
  pub loyalty_days : ℕ

pub record Positions : Type 0 where
  pub stakes : JsMap ℕ (List Stake)
  pub miners : JsMap ℕ Miner
  pub on_chain : JsMap ℕ ℕ
  pub active_raids : JsMap ℕ (JsSet ℕ)
  pub under_attack : JsMap ℕ ℕ
  pub quarry_enabled : Bool
  -- What is sent to the home-station store, newest first.
  pub home_writes : List (ℕ × ℕ)
  pub registry : Registry

unfoldable pub new_positions : Bool → Registry → Positions
new_positions quarry r = record {
  stakes = [];
  miners = [];
  on_chain = [];
  active_raids = [];
  under_attack = [];
  quarry_enabled = quarry;
  home_writes = [];
  registry = r;
}

-- `getMinerState`, whose caller then changes the object.
abbrev pub miner_of : ℕ → Positions → Miner
miner_of w p = get_or (get w p.miners) new_miner

abbrev pub change_miner : ℕ → (Miner → Miner) → Positions → Positions
change_miner w f p = record p { miners = set w (f (miner_of w p)) p.miners }

unfoldable pub get_miner_state : ℕ → Positions → Positions × Miner
get_miner_state w p = (change_miner w (λ m. m) p, miner_of w p)

abbrev pub moved_home : ℕ → ℕ → Miner → Miner
moved_home now a m = record m { home_station = some a; joined_at = some now; loyalty_days = 0 }

unfoldable pub set_home_station : ℕ → ℕ → ℕ → Positions → Positions × Bool
set_home_station now w a p =
    if has a p.registry.asteroids
    then (
      record (change_miner w (moved_home now a) p) { home_writes = (w, a) ∷ p.home_writes },
      true,
    )
    else (p, false)

-- `stored` is what the store returned, `none` also where it failed.
unfoldable pub restore_home_station : ℕ → Option ℕ → Positions → Positions × Option ℕ
restore_home_station w stored p = elim stored [
  | none ↦ (p, none)
  | some a ↦ (change_miner w (λ m. record m { home_station = some a }) p, some a)
]

abbrev pub is_at : ℕ → Stake → Bool
is_at a s = s.asteroid == a

unfoldable pub find_stake : ℕ → List Stake → Option Stake
find_stake a [] = none
find_stake a (s ∷ ss) = if is_at a s then some s else find_stake a ss

-- The first record of an asteroid, changed in place, and dropped where nothing is left of it.
pub raise : ℕ → ℕ → List Stake → List Stake
raise a n [] = []
raise a n (s ∷ ss) = if is_at a s then record s { amount = s.amount + n } ∷ ss else s ∷ raise a n ss

pub lower : ℕ → ℕ → List Stake → List Stake
lower a n [] = []
lower a n (s ∷ ss) =
    if is_at a s
    then (if s.amount - n == 0 then ss else record s { amount = s.amount - n } ∷ ss)
    else s ∷ lower a n ss

abbrev pub stakes_of : ℕ → Positions → List Stake
stakes_of w p = get_or (get w p.stakes) []

-- `state.homeStationAsteroidId` after a wallet without one has been given this one.
abbrev pub home_first : ℕ → ℕ → ℕ → Positions → Positions
home_first now w a p = elim (miner_of w p).home_station [
  | none ↦ (set_home_station now w a p).0
  | some b ↦ p
]

abbrev pub new_stake : ℕ → ℕ → ℕ → Miner → Stake
new_stake now a n m = record {
  asteroid = a;
  amount = n;
  staked_at = now;
  is_home = holds (λ b. b == a) m.home_station;
  loyalty_days = 0;
}

pub staked_list : ℕ → ℕ → ℕ → Miner → List Stake → List Stake
unfolding find_stake raise
staked_list now a n m ss = elim (find_stake a ss) [
  | none ↦ ss ++ (new_stake now a n m ∷ [])
  | some s ↦ raise a n ss
]

-- The part of `stake` that follows its guards.
unfoldable pub put_stake : ℕ → ℕ → ℕ → ℕ → Positions → Positions
unfolding staked_list set_home_station
put_stake now w a n p =
    let q = home_first now w a p in
    record (change_miner w (λ m. record m { total_stake = m.total_stake + n }) q) {
      stakes = set w (staked_list now a n (miner_of w q) (stakes_of w q)) q.stakes;
      registry = update_asteroid_stake a (pos n) q.registry;
    }

unfoldable pub stake : ℕ → ℕ → ℕ → ℤ → Positions → Positions × Bool
unfolding put_stake
stake now w a (negsuc n) p = (p, false)
stake now w a (pos n) p =
    if n == 0
    then (p, false)
    else if has a p.registry.asteroids
    then (put_stake now w a n p, true)
    else (p, false)

-- `-effective`
abbrev pub minus : ℕ → ℤ
minus n = if n == 0 then pos 0 else negsuc (n - 1)

unfoldable pub process_unstake : ℕ → ℕ → ℕ → Positions → Positions × Bool
unfolding find_stake lower
process_unstake w a n p = elim (get w p.stakes) [
  | none ↦ (p, false)
  | some ss ↦ elim (find_stake a ss) [
    | none ↦ (p, false)
    | some s ↦
        let effective = min n s.amount in
        (
          record (change_miner w (λ m. record m { total_stake = m.total_stake - effective }) p) {
            stakes = set w (lower a effective ss) p.stakes;
            registry = update_asteroid_stake a (minus effective) p.registry;
          },
          true,
        )
  ]
]

unfoldable pub unstake : ℕ → ℕ → ℕ → Positions → Positions × Bool
unfolding process_unstake
unstake w a n p = process_unstake w a n p

-- `UnstakeResult`: a warning names the amount locked in bets.
pub data UnstakeResult : Type 0 where
  no_stakes no_stake_here : UnstakeResult
  done : Bool → UnstakeResult
  done_with_bets : ℕ → UnstakeResult

unfoldable pub request_unstake :
    ℕ → ℕ → ℕ → (has_locked : Bool) → (locked : ℕ) → Positions → Positions × UnstakeResult
unfolding process_unstake find_stake
request_unstake w a n has_locked locked p = elim (get w p.stakes) [
  | none ↦ (p, no_stakes)
  | some ss ↦ elim (find_stake a ss) [
    | none ↦ (p, no_stake_here)
    | some s ↦
        let (q, ok) = process_unstake w a (min n s.amount) p in
        (q, if ok && has_locked then done_with_bets locked else done ok)
  ]
]
