-- ===== src/Refinery/Tests.antt =====
-- Runs of the refineries.
use astroid_club.Prelude.{List, [], arith, get_or, nat_eq, refl, some, ◌*◌, ◌+◌, ◌∷◌, ◌≡◌, ◌≤◌}
use astroid_club.Prelude.Fraction.{Fraction}
use astroid_club.AsteroidRegistry.{carbon}
use astroid_club.Power.{default_overrides, get_stake_tier}
use astroid_club.Refinery.{
  Manager, Refinery, Update, Distribution, Estimate, new_manager, put, add_to_refinery,
  update_miner_contribution, shares, distribute_refinery, total_score, get_total_refinery_balance,
  get_miner_pending_share, get,
}
use astroid_club.JsMap.{IsUnique, get}
use astroid_club.Refinery.Forecast.{payout_as_forecast}
use astroid_club.Refinery.Payout.{shares_bounds}
use astroid_club.Refinery.Rounding.{split_bounds}
use astroid_club.Refinery.Paying.{distributed}
use astroid_club.Refinery.History.{
  Call, adds, debits, contributes, distributes, after, apply, added, raided, paid,
  history_conserves,
}
use astroid_club.Refinery.Split.{calculate_yield_split}

splits_hundred : calculate_yield_split 100 ≡ record { finder_share = 70; refinery_share = 30 }
unfolding calculate_yield_split
splits_hundred = refl

-- 90 * 0.7 is 62.99999999999999 as a double.
loses_one_of_ninety : calculate_yield_split 90 ≡ record { finder_share = 62; refinery_share = 27 }
unfolding calculate_yield_split
loses_one_of_ninety = refl

abbrev ship : Update
ship = record {
  asteroid = 7;
  wallet = 1;
  power = 100;
  stake = 0;
  loyalty_days = 8;
  resource = carbon;
  delta_ms = 3_600_000;
}

abbrev probe : Update
probe = record ship { wallet = 2; power = 200; loyalty_days = 0 }

abbrev price : Fraction
price = record { num = 1; den = 100 }

abbrev mined : List Call
mined =
    contributes 5 default_overrides price probe
    ∷ contributes 5 default_overrides price ship
    ∷ adds 4 7 100
    ∷ []

abbrev before_payout : Manager
before_payout = after (new_manager 3_600_000 0) mined

pays_by_power :
    (distribute_refinery 9 7 before_payout).1
    ≡ some
        (record { asteroid = 7; total_distributed = 99; payouts = (1, 35) ∷ (2, 64) ∷ []; at = 9 })
unfolding after apply new_manager add_to_refinery update_miner_contribution get_stake_tier
    distribute_refinery
pays_by_power = refl

abbrev pool : Refinery
pool = record {
  balance = 100;
  pending = 100;
  last_distribution = 4;
  contributions =
      (
        1,
        record {
          power_ms = 360_000_000;
          stake_tier_multiplier = 100;
          loyalty_bonus = 10;
          active_ms = 3_600_000;
        },
      )
      ∷ (
        2,
        record {
          power_ms = 720_000_000;
          stake_tier_multiplier = 100;
          loyalty_bonus = 0;
          active_ms = 3_600_000;
        },
      )
      ∷ [];
  total_distributed = 0;
  distribution_count = 0;
}

abbrev paying : Manager
paying = put 7 pool (new_manager 3_600_000 0)

shares_bounds_example : (total_score ((1, 35) ∷ (2, 64) ∷ []) ≡ 99) × ((99 ≤ 100) × (100 ≤ 99 + 2))
unfolding shares
shares_bounds_example = shares_bounds pool ((1, 35) ∷ (2, 64) ∷ []) 99 refl

abbrev result : Distribution
result = record { asteroid = 7; total_distributed = 99; payouts = (1, 35) ∷ (2, 64) ∷ []; at = 9 }

abbrev estimate : Estimate
estimate = record {
  amount = 64;
  share = record { num = 25_920_000_000_000_000_000 * 100; den = 40_176_000_000_000_000_000 };
}

pool_IsUnique : IsUnique pool.contributions
pool_IsUnique = (refl, (refl, tt))

payout_as_forecast_example : get_or (get 2 result.payouts) 0 ≡ estimate.amount
unfolding distribute_refinery get_miner_pending_share new_manager
payout_as_forecast_example =
    payout_as_forecast 9 7 2 paying pool result estimate refl pool_IsUnique refl refl

history_conserves_example :
    let m = new_manager 3_600_000 0 in
    let xs = distributes 9 7 ∷ debits 7 3 ∷ mined in
    (get_total_refinery_balance (after m xs) + raided m xs + paid m xs ≡ added xs)
    × (distributed (after m xs) ≡ paid m xs)
history_conserves_example = history_conserves 3_600_000 0 (distributes 9 7 ∷ debits 7 3 ∷ mined)

split_bounds_example :
    let s = calculate_yield_split 90 in
    (s.finder_share + s.refinery_share ≤ 90) × (90 ≤ s.finder_share + s.refinery_share + 2)
split_bounds_example = split_bounds 90 (omega arith)
