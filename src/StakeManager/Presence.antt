-- ===== src/StakeManager/Presence.antt =====
-- server/game/stake-manager.ts, lines 385 to 486, 529 to 749 and 935 to 955: the raid bookkeeping, the
-- on-chain stake, and what a stake counts for where the wallet is present. A query that creates a
-- miner's empty state is read without that. A share and a power are exact fractions.
pub mod Shares
use astroid_club.Prelude.{
  All, Bool, Bool-cases, Eq, List, Option, Option-cases, [], ap, arith, false, get_or, holds,
  if_keeps, if◌then◌else◌, inl, inr, is_some, leb, length, length-append, ltb, map, max, min,
  nat_beq_iff, nat_eq, none, not, refl, some, subst, suc, sum_by, sum_by-append, sym, true, zero, ℕ,
  ◌%◌, ◌&&◌, ◌*◌, ◌++◌, ◌+◌, ◌-◌, ◌/◌, ◌<◌, ◌==◌, ◌||◌, ◌↔◌, ◌∙◌, ◌∷◌, ◌≡◌, ◌≢◌, ◌≤◌, ◌⊎◌,
}
use astroid_club.Prelude.Fraction.{Fraction}
use astroid_club.Prelude.Int.{ℤ, pos, negsuc, Number, finite, not_finite}
use astroid_club.JsMap.{JsMap, JsSet, get, has, set, delete, add, size, keys, map_values}
use astroid_club.Cooldowns.{Cooldown, filter, is_live}
use astroid_club.AsteroidRegistry.{Registry, Resource, carbon}
use astroid_club.Power.{
  TierDefinition, Overrides, get_stake_tier, effective_drill_power, defense_power,
}
use astroid_club.StakeManager.Positions.{
  Miner, Stake, Positions, miner_of, change_miner, is_at, find_stake, stakes_of, unstake,
}

unfoldable pub register_active_raid : ℕ → ℕ → Positions → Positions
register_active_raid w raid p = record p {
  active_raids = set w (add raid (get_or (get w p.active_raids) [])) p.active_raids;
}

unfoldable pub unregister_active_raid : ℕ → ℕ → Positions → Positions
unregister_active_raid w raid p = elim (get w p.active_raids) [
  | none ↦ p
  | some raids ↦
      let rest = delete raid raids in
      record p {
        active_raids =
            if size rest == 0 then delete w p.active_raids else set w rest p.active_raids;
      }
]

unfoldable pub register_asteroid_under_attack : ℕ → Positions → Positions
register_asteroid_under_attack a p = record p {
  under_attack = set a (get_or (get a p.under_attack) 0 + 1) p.under_attack;
}

unfoldable pub unregister_asteroid_attack : ℕ → Positions → Positions
unregister_asteroid_attack a p =
    let current = get_or (get a p.under_attack) 0 in
    record p {
      under_attack =
          if leb current 1 then delete a p.under_attack else set a (current - 1) p.under_attack;
    }

unfoldable pub is_asteroid_under_attack : ℕ → Positions → Bool
is_asteroid_under_attack a p = ltb 0 (get_or (get a p.under_attack) 0)

unfoldable pub get_active_raid_count : ℕ → Positions → ℕ
get_active_raid_count w p = elim (get w p.active_raids) [ none ↦ 0 | some raids ↦ size raids ]

unfoldable pub has_active_raids : ℕ → Positions → Bool
unfolding get_active_raid_count
has_active_raids w p = ltb 0 (get_active_raid_count w p)

abbrev pub normalized : Number → ℕ
normalized (finite (pos n)) = n
normalized (finite (negsuc n)) = 0
normalized not_finite = 0

unfoldable pub set_on_chain_stake : ℕ → Number → Positions → Positions
set_on_chain_stake w amount p =
    if p.quarry_enabled
    then (if normalized amount == 0
        then record p { on_chain = delete w p.on_chain }
        else record p { on_chain = set w (normalized amount) p.on_chain })
    else p

unfoldable pub get_on_chain_stake : ℕ → Positions → ℕ
get_on_chain_stake w p = get_or (get w p.on_chain) 0

unfoldable pub get_display_stake : ℕ → Positions → ℕ
unfolding get_on_chain_stake
get_display_stake w p =
    if p.quarry_enabled then get_on_chain_stake w p else (miner_of w p).total_stake

abbrev pub is_present : ℕ → Miner → Bool
is_present a m = holds (λ b. a == b) m.active || holds (λ b. a == b) m.home_station

unfoldable pub effective_stake_at : ℕ → ℕ → Positions → ℕ
unfolding find_stake
effective_stake_at w a p =
    if p.quarry_enabled
    then elim (get w p.miners) [
      | none ↦ 0
      | some m ↦ if is_present a m then get_or (get w p.on_chain) 0 else 0
    ]
    else elim (find_stake a (stakes_of w p)) [ none ↦ 0 | some s ↦ s.amount ]

unfoldable pub get_asteroid_effective_stake_total : ℕ → Positions → ℕ
unfolding effective_stake_at
get_asteroid_effective_stake_total a p = sum_by (λ w. effective_stake_at w a p) (keys p.miners)

unfoldable pub get_stake_tier_at_asteroid :
    Overrides → Fraction → ℕ → ℕ → Positions → TierDefinition
unfolding effective_stake_at
get_stake_tier_at_asteroid o price w a p = get_stake_tier o price (effective_stake_at w a p)

-- `drillPowerBound`
pub record Bound : Type 0 where
  pub free_base : ℕ
  pub per_stake_token : ℕ

abbrev pub derive_base_drill_power : Bound → ℕ → ℕ
derive_base_drill_power b stake = b.free_base + stake * b.per_stake_token

abbrev pub is_carbon : Resource → Bool
is_carbon carbon = true
is_carbon _ = false

unfoldable pub get_effective_drill_power :
    Overrides → Fraction → Option Bound → ℕ → (base : ℕ) → ℕ → Positions → Fraction
unfolding effective_stake_at
get_effective_drill_power o price bound w base a p = elim (get a p.registry.asteroids) [
  | none ↦ record { num = base; den = 1 }
  | some x ↦
      let stake = effective_stake_at w a p in
      effective_drill_power o price
        (elim bound [ none ↦ base | some b ↦ derive_base_drill_power b stake ]) stake
        (miner_of w p).loyalty_days (is_carbon x.definition.resource)
]

abbrev pub at_home : ℕ → ℕ → Positions → Bool
at_home w a p = holds (λ b. b == a) (miner_of w p).home_station

unfoldable pub get_defense_power : Overrides → Fraction → ℕ → ℕ → Positions → Fraction
unfolding effective_stake_at
get_defense_power o price w a p = defense_power o price (effective_stake_at w a p) (at_home w a p)

-- Every defense power is over the same denominator; the sum is of the numerators.
unfoldable pub get_total_defense_power : Overrides → Fraction → ℕ → Positions → ℕ
unfolding get_defense_power
get_total_defense_power o price a p =
    sum_by (λ w. (get_defense_power o price w a p).num)
      (if p.quarry_enabled then keys p.miners else keys p.stakes)

abbrev pub day_ms : ℕ
day_ms = 24 * 60 * 60 * 1000

-- The days since a miner with a home has joined it.
abbrev pub days_at_home : ℕ → Miner → Option ℕ
days_at_home now m = elim m.joined_at [
  | none ↦ none
  | some t ↦ elim m.home_station [ none ↦ none | some a ↦ some ((now - t) / day_ms) ]
]

abbrev pub aged_stake : ℕ → Miner → Stake → Stake
aged_stake days m s =
    if holds (λ a. s.asteroid == a) m.home_station then record s { loyalty_days = days } else s

abbrev pub aged_miner : ℕ → Miner → Miner
aged_miner now m = elim (days_at_home now m) [
  | none ↦ m
  | some days ↦ record m { loyalty_days = days }
]

-- The loop of `updateLoyaltyDays`.
pub age_stakes : ℕ → JsMap ℕ Miner → JsMap ℕ (List Stake) → JsMap ℕ (List Stake)
age_stakes now [] stakes = stakes
age_stakes now ((w, m) ∷ rest) stakes = age_stakes now rest (elim (days_at_home now m) [
  | none ↦ stakes
  | some days ↦ elim (get w stakes) [
    | none ↦ stakes
    | some ss ↦ set w (map (aged_stake days m) ss) stakes
  ]
])

unfoldable pub update_loyalty_days : ℕ → Positions → Positions
unfolding age_stakes
update_loyalty_days now p = record p {
  miners = map_values (aged_miner now) p.miners;
  stakes = age_stakes now p.miners p.stakes;
}

-- The denominator of a share.
unfoldable pub share_total : ℕ → Positions → ℕ
unfolding get_asteroid_effective_stake_total
share_total a p =
    if p.quarry_enabled
    then get_asteroid_effective_stake_total a p
    else elim (get a p.registry.asteroids) [ none ↦ 0 | some x ↦ x.total_stake ]

-- `totalYield * 0.5 * stakeAmount / totalStake`
unfoldable pub calculate_yield_share : ℕ → ℕ → ℕ → Positions → Fraction
unfolding share_total effective_stake_at
calculate_yield_share w a total_yield p =
    if share_total a p == 0
    then record { num = 0; den = 1 }
    else record { num = total_yield * effective_stake_at w a p; den = 2 * share_total a p }

-- A bet of at most a fifth of the stake.
unfoldable pub process_bet : ℕ → ℕ → ℕ → Positions → Bool
unfolding effective_stake_at
process_bet w a bet p = leb (5 * bet) (effective_stake_at w a p)

unfoldable pub burn_bet : ℕ → ℕ → ℕ → Positions → Positions
unfolding unstake
burn_bet w a bet p = (unstake w a bet p).0

unfoldable pub clear_expired_cooldowns : ℕ → Positions → Positions
clear_expired_cooldowns now p = record p {
  miners = map_values (λ m. record m { cooldowns = filter (is_live now) m.cooldowns }) p.miners;
}
