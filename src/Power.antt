-- ===== src/Power.antt =====
-- server/game/types.ts, lines 20 to 135 and 563 to 733: stake tiers and the power that a stake gives.
-- Multipliers are in percent; the USD price of a token and the slope of the soft cap are fractions;
-- what the environment overrides are parameters. A power is an exact fraction.
pub mod Monotone
mod Tests
use astroid_club.Prelude.{
  All, Bool, Bool-cases, Eq, List, Option, Option-cases, [], ap, arith, false, get_or, holds,
  if_keeps, if◌then◌else◌, inl, inr, is_some, leb, length, length-append, ltb, map, max, min,
  nat_beq_iff, nat_eq, none, not, refl, some, subst, suc, sum_by, sum_by-append, sym, true, zero, ℕ,
  ◌%◌, ◌&&◌, ◌*◌, ◌++◌, ◌+◌, ◌-◌, ◌/◌, ◌<◌, ◌==◌, ◌||◌, ◌↔◌, ◌∙◌, ◌∷◌, ◌≡◌, ◌≢◌, ◌≤◌, ◌⊎◌,
}
use astroid_club.Prelude.Fraction.{Fraction}
use astroid_club.Prelude.Int.{Number, finite, pos, negsuc, not_finite}

-- `TierDefinition`: the name is the place in the ladder.
pub record TierDefinition : Type 0 where
  pub usd : ℕ
  pub fallback_tokens : ℕ
  pub drill : ℕ
  pub defense : ℕ

-- `TIER_DEFS` with the overrides of the thresholds.
pub record Overrides : Type 0 where
  pub bronze_usd : ℕ
  pub silver_usd : ℕ
  pub gold_usd : ℕ
  pub diamond_usd : ℕ
  pub bronze : ℕ
  pub silver : ℕ
  pub gold : ℕ
  pub diamond : ℕ

abbrev pub default_overrides : Overrides
default_overrides = record {
  bronze_usd = 50;
  silver_usd = 100;
  gold_usd = 200;
  diamond_usd = 400;
  bronze = 10_000;
  silver = 50_000;
  gold = 250_000;
  diamond = 1_000_000;
}

abbrev pub base_tier : TierDefinition
base_tier = record { usd = 0; fallback_tokens = 0; drill = 100; defense = 100 }

-- The tiers above the base.
abbrev pub upper_tiers : Overrides → List TierDefinition
upper_tiers o =
    record { usd = o.bronze_usd; fallback_tokens = o.bronze; drill = 150; defense = 120 }
    ∷ record { usd = o.silver_usd; fallback_tokens = o.silver; drill = 200; defense = 150 }
    ∷ record { usd = o.gold_usd; fallback_tokens = o.gold; drill = 250; defense = 180 }
    ∷ record { usd = o.diamond_usd; fallback_tokens = o.diamond; drill = 300; defense = 200 }
    ∷ []

-- `stakeAmount >= tierTokenThreshold(def)`, at a price of 0 where it is unknown.
pub reaches : Fraction → ℕ → TierDefinition → Bool
reaches price stake d =
    if d.usd == 0
    then true
    else if ltb 0 price.num
    then leb (d.usd * price.den) (stake * price.num)
    else leb d.fallback_tokens stake

-- The loop, from the last tier down.
pub highest : (TierDefinition → Bool) → List TierDefinition → Option TierDefinition
highest f [] = none
highest f (d ∷ ds) = elim (highest f ds) [ some x ↦ some x | none ↦ if f d then some d else none ]

unfoldable pub get_stake_tier : Overrides → Fraction → ℕ → TierDefinition
unfolding highest reaches
get_stake_tier o price stake =
    get_or (highest (reaches price stake) (base_tier ∷ upper_tiers o)) base_tier

-- `setAstroidUsdPrice`, of a price that is finite where it is a fraction.
unfoldable pub set_price : Option Fraction → Fraction → Fraction
set_price none old = old
set_price (some p) old = if ltb 0 p.num then p else old

-- `is_carbon`: of the carbon class, with at least seven days of loyalty.
unfoldable pub effective_drill_power :
    Overrides → Fraction → (base : ℕ) → (stake : ℕ) → (days : ℕ) → (is_carbon : Bool) → Fraction
unfolding get_stake_tier
effective_drill_power o price base stake days is_carbon = record {
  num =
      base * (get_stake_tier o price stake).drill * (if is_carbon && leb 7 days then 110 else 100);
  den = 10000;
}

unfoldable pub defense_power : Overrides → Fraction → (stake : ℕ) → (is_home : Bool) → Fraction
unfolding get_stake_tier
defense_power o price stake is_home = record {
  num = stake * (get_stake_tier o price stake).defense * (if is_home then 150 else 100);
  den = 10000;
}

-- `softCapAttackDrill` of a whole drill power.
pub soft_cap_attack_drill : (cap : ℕ) → (slope : Fraction) → ℕ → Fraction
soft_cap_attack_drill cap slope drill =
    if cap == 0 || leb drill cap
    then record { num = drill * slope.den; den = slope.den }
    else record { num = cap * slope.den + (drill - cap) * slope.num; den = slope.den }

-- Half of the capped drill power and a tenth of the stake.
unfoldable pub attack_power : (cap : ℕ) → (slope : Fraction) → ℕ → ℕ → Fraction
unfolding soft_cap_attack_drill
attack_power cap slope drill stake =
    let d = soft_cap_attack_drill cap slope drill in
    record { num = 5 * d.num + stake * d.den; den = 10 * d.den }
