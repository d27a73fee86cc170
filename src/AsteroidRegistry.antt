-- ===== src/AsteroidRegistry.antt =====
-- server/game/asteroid-registry.ts: the live state of each asteroid and where each wallet mines.
-- Wallets, asteroids, expeditions, headers and targets are opaque keys; the clock, the drawn header,
-- jackpot and flare are arguments. A multiplier is an exact fraction, a penalty a whole percentage.
pub mod Miners
pub mod Locations
pub mod History
pub mod Effects
pub mod Bounds
pub mod Multipliers
mod Tests
use astroid_club.Prelude.{
  All, Bool, Bool-cases, Eq, List, Option, Option-cases, [], ap, arith, false, get_or, holds,
  if_cases, if_keeps, if◌then◌else◌, inl, inr, is_some, leb, length, length-append, ltb, map, max,
  min, nat_beq_iff, nat_eq, none, not, refl, some, subst, suc, sum_by, sum_by-append, sym, true,
  zero, ℕ, ◌%◌, ◌&&◌, ◌*◌, ◌++◌, ◌+◌, ◌-◌, ◌/◌, ◌<◌, ◌==◌, ◌||◌, ◌↔◌, ◌∙◌, ◌∷◌, ◌≡◌, ◌≢◌, ◌≤◌, ◌⊎◌,
}
use astroid_club.Prelude.Fraction.{Fraction, one, times, percent}
use astroid_club.JsMap.{JsMap, JsSet, get, has, set, delete, add, size, values}
use astroid_club.JsMap.Sums.{total}

pub data Resource : Type 0 where
  carbon gold oil silver : Resource

-- `AsteroidDefinition`, without the texts and the position, which are for display.
pub record Definition : Type 0 where
  pub id : ℕ
  pub resource : Resource
  pub base_discovery_time : ℕ
  pub base_reward : Fraction

pub record DefenseBuff : Type 0 where
  pub immune_until : ℕ
  pub boost : Fraction
  pub boost_expires_at : ℕ

pub record AttackDebuff : Type 0 where
  pub reduction : Fraction
  pub expires_at : ℕ

-- A yield multiplier in percent.
pub record MeteorDebuff : Type 0 where
  pub yield_multiplier : ℕ
  pub expires_at : ℕ

pub record Asteroid : Type 0 where
  pub definition : Definition
  pub active_miners : JsSet ℕ
  pub total_drill_power : ℕ
  pub total_stake : ℕ
  pub current_discovery : ℕ
  pub total_discoveries : ℕ
  pub last_discovery : Option ℕ
  pub difficulty : ℕ
  pub target : ℕ
  pub incoming_raids : List ℕ
  pub defense_buff : Option DefenseBuff
  pub attack_debuff : Option AttackDebuff
  pub meteor_debuff : Option MeteorDebuff
  pub header : ℕ
  pub stellar_strike : Bool
  pub syndicate_multiplier : Fraction
  pub solar_flare : Fraction

pub record Registry : Type 0 where
  pub asteroids : JsMap ℕ Asteroid
  -- wallet -> asteroid
  pub miner_locations : JsMap ℕ ℕ

-- The constants; the immunity is a setting in minutes.
abbrev pub immunity_ms : ℕ → ℕ
immunity_ms minutes = minutes * 60 * 1000

abbrev pub boost_ms : ℕ
boost_ms = 60 * 60 * 1000

abbrev pub debuff_ms : ℕ
debuff_ms = 30 * 60 * 1000

-- `calculateSyndicateMultiplier`: from 1 at one miner to 3 at fifty.
pub syndicate_multiplier_of : ℕ → Fraction
syndicate_multiplier_of n =
    if leb n 1
    then one
    else if leb 50 n
    then record { num = 3; den = 1 }
    else record { num = 49 + (n - 1) * 2; den = 49 }

unfoldable pub create_asteroid_state : Definition → ℕ → Asteroid
create_asteroid_state d header = record {
  definition = d;
  active_miners = [];
  total_drill_power = 0;
  total_stake = 0;
  current_discovery = 1;
  total_discoveries = 0;
  last_discovery = none;
  difficulty = 1;
  target = 0;
  incoming_raids = [];
  defense_buff = none;
  attack_debuff = none;
  meteor_debuff = none;
  header = header;
  stellar_strike = false;
  syndicate_multiplier = one;
  solar_flare = one;
}

unfoldable pub new_registry : Registry
new_registry = record { asteroids = []; miner_locations = [] }

unfoldable pub register_asteroid : Definition → ℕ → Registry → Registry
unfolding create_asteroid_state
register_asteroid d header r = record r {
  asteroids = set d.id (create_asteroid_state d header) r.asteroids;
}

abbrev pub get_asteroid : ℕ → Registry → Option Asteroid
get_asteroid a r = get a r.asteroids

-- A change of an asteroid in place, where it is registered.
abbrev pub change : ℕ → (Asteroid → Asteroid) → Registry → Registry
change a f r = elim (get a r.asteroids) [
  | none ↦ r
  | some s ↦ record r { asteroids = set a (f s) r.asteroids }
]

unfoldable pub has_raid_immunity : ℕ → ℕ → Registry → Bool
has_raid_immunity now a r =
    holds (λ s. holds (λ b. ltb now b.immune_until) s.defense_buff) (get a r.asteroids)

abbrev pub defended : ℕ → ℕ → Asteroid → Asteroid
defended minutes now s = record s {
  defense_buff = some (record {
    immune_until = now + immunity_ms minutes;
    boost = percent 110;
    boost_expires_at = now + boost_ms;
  });
}

unfoldable pub apply_defense_buff : ℕ → ℕ → ℕ → Registry → Registry
apply_defense_buff minutes now a r = change a (defended minutes now) r

abbrev pub attacked : ℕ → Asteroid → Asteroid
attacked now s = record s {
  attack_debuff = some (record { reduction = percent 80; expires_at = now + debuff_ms });
}

unfoldable pub apply_attack_debuff : ℕ → ℕ → Registry → Registry
apply_attack_debuff now a r = change a (attacked now) r

-- The penalty of a meteor, merged with the one that is there, expired or not.
abbrev pub struck : ℕ → ℕ → ℕ → Asteroid → Asteroid
struck now percentage duration s =
    let multiplier = 100 - min 100 percentage in
    let expires = now + duration in
    record s {
      meteor_debuff = some (elim s.meteor_debuff [
        | none ↦ record { yield_multiplier = multiplier; expires_at = expires }
        | some d ↦ record {
          yield_multiplier =
              if ltb d.yield_multiplier multiplier then d.yield_multiplier else multiplier;
          expires_at = if ltb expires d.expires_at then d.expires_at else expires;
        }
      ]);
    }

unfoldable pub apply_meteor_yield_penalty : ℕ → ℕ → ℕ → ℕ → Registry → Registry
apply_meteor_yield_penalty now a percentage duration r = change a (struck now percentage duration) r

-- In percent.
unfoldable pub get_meteor_yield_multiplier : ℕ → ℕ → Registry → ℕ
get_meteor_yield_multiplier now a r = elim (get a r.asteroids) [
  | none ↦ 100
  | some s ↦ elim s.meteor_debuff [
    | none ↦ 100
    | some d ↦ if leb d.expires_at now then 100 else d.yield_multiplier
  ]
]

unfoldable pub includes : ℕ → List ℕ → Bool
includes x [] = false
includes x (y ∷ ys) = x == y || includes x ys

pub without : ℕ → List ℕ → List ℕ
without x [] = []
without x (y ∷ ys) = let rest = without x ys in if x == y then rest else y ∷ rest

unfoldable pub add_incoming_raid : ℕ → ℕ → Registry → Registry
unfolding includes
add_incoming_raid a e r =
    change a
      (λ s.
        if includes e s.incoming_raids
        then s
        else record s { incoming_raids = s.incoming_raids ++ (e ∷ []) })
      r

unfoldable pub remove_incoming_raid : ℕ → ℕ → Registry → Registry
unfolding without
remove_incoming_raid a e r =
    change a (λ s. record s { incoming_raids = without e s.incoming_raids }) r

abbrev pub get_miner_location : ℕ → Registry → Option ℕ
get_miner_location w r = get w r.miner_locations

abbrev pub get_total_miners : Registry → ℕ
get_total_miners r = size r.miner_locations

unfoldable pub get_total_stake : Registry → ℕ
get_total_stake r = total (λ s. s.total_stake) r.asteroids

unfoldable pub get_total_drill_power : Registry → ℕ
get_total_drill_power r = total (λ s. s.total_drill_power) r.asteroids

abbrev pub is_oil : Resource → Bool
is_oil oil = true
is_oil carbon = false
is_oil gold = false
is_oil silver = false

pub update_resource_mechanics : Asteroid → Asteroid
unfolding syndicate_multiplier_of
update_resource_mechanics s =
    if is_oil s.definition.resource
    then record s { syndicate_multiplier = syndicate_multiplier_of (size s.active_miners) }
    else s
