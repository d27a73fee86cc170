-- ===== src/Power/Tests.antt =====
-- Powers at concrete stakes, and the theorem at a concrete input.
use astroid_club.Prelude.{arith, false, nat_eq, refl, true, ◌*◌, ◌≡◌, ◌≤◌}
use astroid_club.Prelude.Fraction.{Fraction}
use astroid_club.Power.{
  default_overrides, reaches, highest, get_stake_tier, effective_drill_power, defense_power,
  attack_power, soft_cap_attack_drill,
}
use astroid_club.Power.Monotone.{power_mono}

-- Half a cent for a token, and a slope of 0.15.
abbrev price : Fraction
price = record { num = 1; den = 200 }

abbrev slope : Fraction
slope = record { num = 15; den = 100 }

silver : (get_stake_tier default_overrides price 25_000).drill ≡ 200
unfolding get_stake_tier highest reaches
silver = refl

compressed :
    soft_cap_attack_drill 5_000_000 slope 6_000_000 ≡ record { num = 515_000_000; den = 100 }
unfolding soft_cap_attack_drill
compressed = refl

power_mono_example :
    ((effective_drill_power default_overrides price 1000 20_000 7 true).num
      ≤ (effective_drill_power default_overrides price 1000 90_000 7 true).num)
    × ((defense_power default_overrides price 20_000 false).num
        ≤ (defense_power default_overrides price 90_000 false).num)
    × ((attack_power 5_000_000 slope 1000 20_000).num
          * (attack_power 5_000_000 slope 6_000_000 90_000).den
        ≤ (attack_power 5_000_000 slope 6_000_000 90_000).num
          * (attack_power 5_000_000 slope 1000 20_000).den)
power_mono_example =
    power_mono default_overrides price slope 5_000_000 1000 20_000 90_000 7 1000 6_000_000 true
      false (omega arith) (omega arith)
