-- ===== src/Refinery.antt =====
-- server/game/refinery-manager.ts: the pool of each asteroid and its hourly payout. Power is in a
-- fixed unit and time in milliseconds, so that `power_ms` is a whole number, 1000 times the code's
-- drillPowerSeconds. Multipliers are in percent. A score is a number of units of one
-- (total power * 100 * 100 * 3_600_000)th, the same unit for all who share a payout.
pub mod Split
pub mod Rounding
pub mod Payout
pub mod Paying
pub mod History
pub mod Forecast
mod Tests
use astroid_club.Prelude.{
  All, Bool, Bool-cases, Eq, List, Option, Option-cases, [], ap, arith, false, get_or, holds,
  if_cases, if_keeps, if◌then◌else◌, inl, inr, is_some, leb, length, length-append, ltb, map, max,
  min, nat_beq_iff, nat_eq, none, not, refl, some, subst, suc, sum_by, sum_by-append, sym, true,
  zero, ℕ, ◌%◌, ◌&&◌, ◌*◌, ◌++◌, ◌+◌, ◌-◌, ◌/◌, ◌<◌, ◌==◌, ◌||◌, ◌↔◌, ◌∙◌, ◌∷◌, ◌≡◌, ◌≢◌, ◌≤◌, ◌⊎◌,
}
use astroid_club.Prelude.Fraction.{Fraction}
use astroid_club.JsMap.{JsMap, get, set, size, keys, map_values}
use astroid_club.JsMap.Sums.{total}
use astroid_club.AsteroidRegistry.{Resource, carbon, gold, oil, silver}
use astroid_club.Power.{Overrides, get_stake_tier}

pub record Contribution : Type 0 where
  pub power_ms : ℕ
  pub stake_tier_multiplier : ℕ
  pub loyalty_bonus : ℕ
  pub active_ms : ℕ

pub record Refinery : Type 0 where
  pub balance : ℕ
  pub pending : ℕ
  pub last_distribution : ℕ
  pub contributions : JsMap ℕ Contribution
  pub total_distributed : ℕ
  pub distribution_count : ℕ

pub record Manager : Type 0 where
  pub refineries : JsMap ℕ Refinery
  pub interval_ms : ℕ
  pub last_check : ℕ

abbrev pub min_distribution : ℕ
min_distribution = 1

abbrev pub default_interval_ms : ℕ
default_interval_ms = 60 * 60 * 1000

unfoldable pub new_manager : ℕ → ℕ → Manager
new_manager interval now = record { refineries = []; interval_ms = interval; last_check = now }

abbrev pub new_refinery : ℕ → Refinery
new_refinery now = record {
  balance = 0;
  pending = 0;
  last_distribution = now;
  contributions = [];
  total_distributed = 0;
  distribution_count = 0;
}

unfoldable pub initialize_refinery : ℕ → ℕ → Manager → Manager
initialize_refinery now a m = record m { refineries = set a (new_refinery now) m.refineries }

-- `getOrCreateRefinery`: a refinery that is made here is also entered, which `put` below does.
abbrev pub refinery_of : ℕ → ℕ → Manager → Refinery
refinery_of now a m = get_or (get a m.refineries) (new_refinery now)

abbrev pub put : ℕ → Refinery → Manager → Manager
put a r m = record m { refineries = set a r m.refineries }

-- The new balance is the result.
unfoldable pub add_to_refinery : ℕ → ℕ → ℕ → Manager → Manager × ℕ
add_to_refinery now a n m =
    let r = refinery_of now a m in
    let r' = record r { balance = r.balance + n; pending = r.pending + n } in
    (put a r' m, r.balance + n)

-- `pending - taken` stops at 0, as `Math.max(0, ...)` does.
abbrev pub taken_from : ℕ → Refinery → Refinery
taken_from taken r = record r { balance = r.balance - taken; pending = r.pending - taken }

unfoldable pub debit : ℕ → ℕ → Manager → Manager × ℕ
debit a n m = elim (get a m.refineries) [
  | none ↦ (m, 0)
  | some r ↦
      if n == 0
      then (m, 0)
      else (let taken = min n r.balance in (put a (taken_from taken r) m, taken))
]

pub record Update : Type 0 where
  pub asteroid : ℕ
  pub wallet : ℕ
  pub power : ℕ
  pub stake : ℕ
  pub loyalty_days : ℕ
  pub resource : Resource
  pub delta_ms : ℕ

abbrev pub is_carbon : Resource → Bool
is_carbon carbon = true
is_carbon gold = false
is_carbon oil = false
is_carbon silver = false

abbrev pub loyalty_of : Resource → ℕ → ℕ
loyalty_of res days = if is_carbon res && leb 7 days then 10 else 0

-- The entry of a miner after more time at some power.
abbrev pub contributed : ℕ → Update → Option Contribution → Contribution
contributed tier u none = record {
  power_ms = u.power * u.delta_ms;
  stake_tier_multiplier = tier;
  loyalty_bonus = loyalty_of u.resource u.loyalty_days;
  active_ms = u.delta_ms;
}
contributed tier u (some c) = record {
  power_ms = c.power_ms + u.power * u.delta_ms;
  stake_tier_multiplier = tier;
  loyalty_bonus = loyalty_of u.resource u.loyalty_days;
  active_ms = c.active_ms + u.delta_ms;
}

unfoldable pub update_miner_contribution : Overrides → Fraction → ℕ → Update → Manager → Manager
update_miner_contribution o price now u m =
    let r = refinery_of now u.asteroid m in
    let tier = (get_stake_tier o price u.stake).drill in
    let c = contributed tier u (get u.wallet r.contributions) in
    put u.asteroid (record r { contributions = set u.wallet c r.contributions }) m

-- `calculateMinerScore`, given the total power.
unfoldable pub miner_score : ℕ → Contribution → ℕ
miner_score all c =
    if all == 0
    then 0
    else c.power_ms * c.stake_tier_multiplier * (100 + c.loyalty_bonus) * min 3_600_000 c.active_ms

abbrev pub total_power : JsMap ℕ Contribution → ℕ
total_power = total (λ c. c.power_ms)

-- The scores of all, and their sum.
pub score_loop : ℕ → JsMap ℕ Contribution → JsMap ℕ ℕ
unfolding miner_score
score_loop all [] = []
score_loop all ((w, c) ∷ m) = (w, miner_score all c) ∷ score_loop all m

abbrev pub total_score : JsMap ℕ ℕ → ℕ
total_score = total (λ s. s)

-- Who is paid what of an amount, and the sum of it.
pub pay_loop : ℕ → ℕ → JsMap ℕ ℕ → JsMap ℕ ℕ × ℕ
pay_loop n sum [] = ([], 0)
pay_loop n sum ((w, s) ∷ rest) =
    let p = n * s / sum in
    let q = pay_loop n sum rest in if ltb 0 p then ((w, p) ∷ q.0, p + q.1) else q

pub record Distribution : Type 0 where
  pub asteroid : ℕ
  pub total_distributed : ℕ
  pub payouts : JsMap ℕ ℕ
  pub at : ℕ

-- The miner count of a result.
abbrev pub miner_count : Distribution → ℕ
miner_count d = size d.payouts

-- A refinery after a payout.
abbrev pub paid_out : ℕ → ℕ → Refinery → Refinery
paid_out now n r = record r {
  balance = r.balance - n;
  pending = 0;
  total_distributed = r.total_distributed + n;
  distribution_count = r.distribution_count + 1;
  last_distribution = now;
  contributions = [];
}

-- The payouts of a refinery and their sum, where there is something to pay and someone to pay it to.
unfoldable pub shares : Refinery → Option (JsMap ℕ ℕ × ℕ)
unfolding score_loop pay_loop
shares r =
    let all = total_power r.contributions in
    let scores = score_loop all r.contributions in
    let sum = total_score scores in
    if ltb r.pending min_distribution || (size r.contributions == 0 || (all == 0 || sum == 0))
    then none
    else some (pay_loop r.pending sum scores)

unfoldable pub distribute_refinery : ℕ → ℕ → Manager → Manager × Option Distribution
unfolding shares
distribute_refinery now a m = elim (get a m.refineries) [
  | none ↦ (m, none)
  | some r ↦ elim (shares r) [
    | none ↦ (m, none)
    | some (payouts, n) ↦ (
      put a (paid_out now n r) m,
      some (record { asteroid = a; total_distributed = n; payouts = payouts; at = now }),
    )
  ]
]

-- The results in order, of the asteroids that paid.
pub distribute_loop : ℕ → List ℕ → Manager → Manager × List Distribution
unfolding distribute_refinery
distribute_loop now [] m = (m, [])
distribute_loop now (a ∷ more) m =
    let one = distribute_refinery now a m in
    let rest = distribute_loop now more one.0 in
    (rest.0, elim one.1 [ none ↦ rest.1 | some d ↦ d ∷ rest.1 ])

unfoldable pub distribute_all : ℕ → Manager → Manager × List Distribution
unfolding distribute_loop
distribute_all now m =
    let done = distribute_loop now (keys m.refineries) m in
    (record done.0 { last_check = now }, done.1)

abbrev pub should_distribute : ℕ → Manager → Bool
should_distribute now m = leb (m.last_check + m.interval_ms) now

abbrev pub mark_distribution_checked : ℕ → Manager → Manager
mark_distribution_checked now m = record m { last_check = now }

pub record RefineryStats : Type 0 where
  pub balance : ℕ
  pub pending : ℕ
  pub total_distributed : ℕ
  pub distribution_count : ℕ
  pub contributor_count : ℕ
  pub last_distribution : ℕ

abbrev pub get_refinery_stats : ℕ → Manager → Option RefineryStats
get_refinery_stats a m = elim (get a m.refineries) [
  | none ↦ none
  | some r ↦ some (record {
    balance = r.balance;
    pending = r.pending;
    total_distributed = r.total_distributed;
    distribution_count = r.distribution_count;
    contributor_count = size r.contributions;
    last_distribution = r.last_distribution;
  })
]

abbrev pub get_all_refinery_balances : Manager → JsMap ℕ ℕ
get_all_refinery_balances m = map (λ e. (e.0, (e.1).balance)) m.refineries

abbrev pub get_total_refinery_balance : Manager → ℕ
get_total_refinery_balance m = total (λ r. r.balance) m.refineries

pub record Estimate : Type 0 where
  pub amount : ℕ
  pub share : Fraction

abbrev pub no_share : Estimate
no_share = record { amount = 0; share = record { num = 0; den = 1 } }

unfoldable pub get_miner_pending_share : ℕ → ℕ → Manager → Option Estimate
unfolding score_loop
get_miner_pending_share a w m = elim (get a m.refineries) [
  | none ↦ none
  | some r ↦
      let all = total_power r.contributions in
      let scores = score_loop all r.contributions in
      let sum = total_score scores in
      let mine = get_or (get w scores) 0 in
      if not (is_some (get w r.contributions)) || (all == 0 || sum == 0)
      then some no_share
      else some (record {
        amount = r.pending * mine / sum;
        share = record { num = mine * 100; den = sum };
      })
]
