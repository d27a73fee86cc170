-- ===== src/Distribution/Tests.antt =====
-- Runs of the distribution service.
use astroid_club.Prelude.{List, [], arith, false, nat_eq, refl, some, true, ◌*◌, ◌+◌, ◌-◌, ◌∷◌, ◌≡◌}
use astroid_club.Prelude.Fraction.{Fraction}
use astroid_club.JsMap.{IsUnique}
use astroid_club.AsteroidRegistry.{carbon}
use astroid_club.Power.{default_overrides}
use astroid_club.Refinery.{new_manager, get_total_refinery_balance}
use astroid_club.Refinery.History.{Call, adds, after, contributes, after-AllSound}
use astroid_club.StakeManager.Credits.{new_credits, get_pending_yield, get_total_pending_yield}
use astroid_club.Distribution.{
  Service, new_service, register_active_miner, tick_contributions, start, perform_distribution,
  ActiveMiner, update_miner_stats, get,
}
use astroid_club.Refinery.Paying.{AllSound}
use astroid_club.Distribution.Payout.{owed, distribution_conserves}
use astroid_club.Distribution.Ticks.{power_at, counted_of, no_change, tick_counts, update_forgets}

abbrev price : Fraction
price = record { num = 1; den = 100 }

abbrev deposits : List Call
deposits = adds 0 7 100 ∷ []

abbrev fresh : Service
fresh = new_service (after (new_manager 3_600_000 0) deposits) (new_credits true true) false false

abbrev mining : Service
mining = register_active_miner 1000 1 7 carbon 50 0 0 fresh

starts_once : ((start fresh).1 ≡ true) × ((start (start fresh).0).1 ≡ false)
unfolding new_service
starts_once = (refl, refl)

mining_IsUnique : IsUnique mining.active
unfolding register_active_miner new_service
mining_IsUnique = (refl, tt)

abbrev history : List Call
history =
    contributes 5 default_overrides price (record {
      asteroid = 7;
      wallet = 1;
      power = 100;
      stake = 0;
      loyalty_days = 8;
      resource = carbon;
      delta_ms = 3_600_000;
    })
    ∷ deposits

abbrev banked : Service
banked = new_service (after (new_manager 3_600_000 0) history) (new_credits true true) false false

banked_off : banked.chain_enabled ≡ false
unfolding new_service
banked_off = refl

banked_AllSound : AllSound banked.refinery
unfolding new_service
banked_AllSound = after-AllSound 3_600_000 0 history

distribution_conserves_example :
    let x = perform_distribution 9 banked in
    (get_pending_yield 1 x.0.credits ≡ get_pending_yield 1 banked.credits + owed 1 x.1)
    × (get_total_refinery_balance x.0.refinery + get_total_pending_yield x.0.credits
        ≡ get_total_refinery_balance banked.refinery + get_total_pending_yield banked.credits)
distribution_conserves_example = distribution_conserves 9 1 banked banked_off banked_AllSound

tick_counts_example :
    power_at 7 1 (tick_contributions default_overrides price 31_000 mining).refinery
    ≡ power_at 7 1 mining.refinery + counted_of 31_000 7 (get 1 mining.active)
tick_counts_example = tick_counts default_overrides price 31_000 7 1 mining mining_IsUnique

abbrev miner : ActiveMiner
miner = record {
  asteroid = 7;
  power = 50;
  stake = 0;
  loyalty_days = 0;
  resource = carbon;
  last_update = 1000;
}

mining_miner : get 1 mining.active ≡ some miner
unfolding register_active_miner new_service
mining_miner = refl

-- 29 of the 30 seconds are lost.
update_forgets_example :
    let s' = update_miner_stats 30_000 1 no_change mining in
    power_at 7 1 (tick_contributions default_overrides price 31_000 s').refinery
      + 50 * (30_000 - 1000)
    ≡ power_at 7 1 (tick_contributions default_overrides price 31_000 mining).refinery
update_forgets_example =
    update_forgets default_overrides price 30_000 31_000 1 miner mining mining_IsUnique mining_miner
      (omega arith) (omega arith)
