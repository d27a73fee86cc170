-- ===== src/AsteroidRegistry/Miners.antt =====
-- server/game/asteroid-registry.ts, lines 276 to 475: miners, drill power, stake, discoveries, and the
-- expiry of effects. The draws of a discovery are arguments.
use astroid_club.Prelude.{
  Bool, Option, false, if◌then◌else◌, leb, ltb, nat_eq, none, some, suc, true, ℕ, ◌&&◌, ◌+◌, ◌-◌,
  ◌==◌,
}
use astroid_club.Prelude.Fraction.{Fraction, one, times}
use astroid_club.Prelude.Int.{ℤ, pos, negsuc}
use astroid_club.JsMap.{get, set, delete, add, map_values}
use astroid_club.AsteroidRegistry.{
  Resource, carbon, gold, oil, silver, Asteroid, Registry, DefenseBuff, change,
  update_resource_mechanics, is_oil,
}

-- `asteroid.activeMiners.delete` and the drill power that goes with it.
abbrev pub evicted : ℕ → ℕ → Asteroid → Asteroid
evicted w power s = update_resource_mechanics (record s {
  active_miners = delete w s.active_miners;
  total_drill_power = s.total_drill_power - power;
})

unfoldable pub remove_miner : ℕ → ℕ → Registry → Registry × Bool
remove_miner w power r = elim (get w r.miner_locations) [
  | none ↦ (r, false)
  | some a ↦ elim (get a r.asteroids) [
    | none ↦ (r, false)
    | some s ↦ (
      record {
        asteroids = set a (evicted w power s) r.asteroids;
        miner_locations = delete w r.miner_locations;
      },
      true,
    )
  ]
]

abbrev pub settled : ℕ → ℕ → Asteroid → Asteroid
settled w power s = update_resource_mechanics (record s {
  active_miners = add w s.active_miners;
  total_drill_power = s.total_drill_power + power;
})

-- The miner leaves the asteroid where he was, if it is another one.
abbrev pub leave_previous : ℕ → ℕ → Registry → Registry
leave_previous w a r = elim (get w r.miner_locations) [
  | none ↦ r
  | some b ↦ if b == a then r else (remove_miner w 0 r).0
]

unfoldable pub add_miner : ℕ → ℕ → ℕ → Registry → Registry × Bool
unfolding remove_miner
add_miner w a power r = elim (get a r.asteroids) [
  | none ↦ (r, false)
  | some s ↦
      let r' = change a (settled w power) (leave_previous w a r) in
      (record r' { miner_locations = set w a r'.miner_locations }, true)
]

unfoldable pub update_miner_drill_power : ℕ → ℕ → ℕ → Registry → Registry
update_miner_drill_power w old new r = elim (get w r.miner_locations) [
  | none ↦ r
  | some a ↦ change a (λ s. record s { total_drill_power = s.total_drill_power + new - old }) r
]

-- `Math.max(0, totalStake + delta)`
abbrev pub shifted : ℕ → ℤ → ℕ
shifted n (pos d) = n + d
shifted n (negsuc d) = n - suc d

unfoldable pub update_asteroid_stake : ℕ → ℤ → Registry → Registry
update_asteroid_stake a delta r =
    change a (λ s. record s { total_stake = shifted s.total_stake delta }) r

unfoldable pub update_asteroid_difficulty : ℕ → ℕ → ℕ → Registry → Registry
update_asteroid_difficulty a difficulty target r =
    change a (λ s. record s { difficulty = difficulty; target = target }) r

-- The draws of a discovery: its header, the jackpot, and the flare.
pub record Draws : Type 0 where
  pub header : ℕ
  pub jackpot : Bool
  pub flare : Fraction

abbrev pub update_post_discovery : Resource → Draws → Asteroid → Asteroid
update_post_discovery gold d s = record s { stellar_strike = d.jackpot }
update_post_discovery silver d s = record s { solar_flare = d.flare }
update_post_discovery carbon d s = s
update_post_discovery oil d s = s

abbrev pub discovered : ℕ → Draws → Asteroid → Asteroid
discovered now d s = update_post_discovery s.definition.resource d (record s {
  total_discoveries = s.total_discoveries + 1;
  current_discovery = s.current_discovery + 1;
  last_discovery = some now;
  header = d.header;
})

unfoldable pub record_discovery_found : ℕ → ℕ → Draws → Registry → Registry
record_discovery_found now a d r = change a (discovered now d) r

-- The body of the loop of `clearExpiredEffects`.
abbrev pub expired_defense : ℕ → DefenseBuff → Option DefenseBuff
expired_defense now b =
    if leb b.immune_until now && leb b.boost_expires_at now
    then none
    else if leb b.boost_expires_at now
    then some (record b { boost = one })
    else some b

abbrev pub unexpired {ℓ} : {A : Type ℓ} → (A → Bool) → Option A → Option A
unexpired dead none = none
unexpired dead (some x) = if dead x then none else some x

abbrev pub cleared : ℕ → Asteroid → Asteroid
cleared now s = record s {
  defense_buff = elim s.defense_buff [ none ↦ none | some b ↦ expired_defense now b ];
  attack_debuff = unexpired (λ d. leb d.expires_at now) s.attack_debuff;
  meteor_debuff = unexpired (λ d. leb d.expires_at now) s.meteor_debuff;
}

unfoldable pub clear_expired_effects : ℕ → Registry → Registry
clear_expired_effects now r = record r { asteroids = map_values (cleared now) r.asteroids }

abbrev pub times_if : Bool → Fraction → Fraction → Fraction
times_if b f g = if b then times g f else g

abbrev pub defense_boost : ℕ → Asteroid → Fraction
defense_boost now s = elim s.defense_buff [
  | none ↦ one
  | some b ↦ if ltb now b.boost_expires_at then b.boost else one
]

abbrev pub attack_cut : ℕ → Asteroid → Fraction
attack_cut now s = elim s.attack_debuff [
  | none ↦ one
  | some d ↦ if ltb now d.expires_at then d.reduction else one
]

unfoldable pub get_drill_power_multiplier : ℕ → ℕ → Registry → Fraction
get_drill_power_multiplier now a r = elim (get a r.asteroids) [
  | none ↦ one
  | some s ↦
      times_if (is_oil s.definition.resource) s.syndicate_multiplier
        (times (defense_boost now s) (attack_cut now s))
]

abbrev pub resource_yield : Resource → Asteroid → Fraction
resource_yield gold s = if s.stellar_strike then record { num = 5; den = 1 } else one
resource_yield silver s = s.solar_flare
resource_yield oil s = s.syndicate_multiplier
resource_yield carbon s = one

unfoldable pub get_yield_multiplier : ℕ → Registry → Fraction
get_yield_multiplier a r = elim (get a r.asteroids) [
  | none ↦ one
  | some s ↦ times s.definition.base_reward (resource_yield s.definition.resource s)
]
