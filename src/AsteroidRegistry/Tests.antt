-- ===== src/AsteroidRegistry/Tests.antt =====
-- Runs of the asteroid registry, and the theorems at concrete inputs.
use astroid_club.Prelude.{
  List, [], arith, false, if◌then◌else◌, ltb, max, min, nat_eq, refl, some, true, ◌+◌, ◌-◌, ◌∷◌,
  ◌≡◌,
}
use astroid_club.Prelude.Fraction.{one}
use astroid_club.AsteroidRegistry.{
  Definition, carbon, oil, Registry, Asteroid, new_registry, register_asteroid,
  create_asteroid_state, update_resource_mechanics, syndicate_multiplier_of,
  get_meteor_yield_multiplier, apply_meteor_yield_penalty, has_raid_immunity, apply_defense_buff,
}
use astroid_club.AsteroidRegistry.Miners.{remove_miner, add_miner}
use astroid_club.AsteroidRegistry.Locations.{mines, located}
use astroid_club.AsteroidRegistry.History.{
  Call, registers, joins, defends, after, apply, FreshAll, after-Placed,
}
use astroid_club.AsteroidRegistry.Effects.{old_multiplier, old_expiry, strike_merges}

abbrev rig : Definition
rig = record { id = 1; resource = oil; base_discovery_time = 900_000; base_reward = one }

abbrev vein : Definition
vein = record { id = 2; resource = carbon; base_discovery_time = 300_000; base_reward = one }

-- Newest first: wallet 9 joins the rig and moves on to the vein, which defends itself.
abbrev calls : List Call
calls =
    defends 30 1000 2
    ∷ joins 9 2 5
    ∷ joins 8 1 7
    ∷ joins 9 1 5
    ∷ registers vein 0
    ∷ registers rig 0
    ∷ []

moved : (mines 9 1 (after calls) ≡ false) × (mines 9 2 (after calls) ≡ true)
unfolding after apply add_miner remove_miner register_asteroid create_asteroid_state new_registry
    update_resource_mechanics syndicate_multiplier_of apply_defense_buff
moved = (refl, refl)

-- An asteroid of the carbon class is immune after a defense.
carbon_immune : has_raid_immunity 2000 2 (after calls) ≡ true
unfolding has_raid_immunity after apply add_miner remove_miner register_asteroid
    create_asteroid_state new_registry update_resource_mechanics syndicate_multiplier_of
    apply_defense_buff
carbon_immune = refl

after-Placed_example : mines 9 2 (after calls) ≡ located 9 2 (after calls)
unfolding after apply add_miner remove_miner register_asteroid create_asteroid_state new_registry
    FreshAll update_resource_mechanics syndicate_multiplier_of apply_defense_buff
after-Placed_example = after-Placed calls 9 2 (tt, (tt, (tt, (tt, (refl, (refl, tt))))))

-- A vein with a penalty that has ended but was not cleared.
abbrev once_struck : Asteroid
once_struck = record (create_asteroid_state vein 0) {
  meteor_debuff = some (record { yield_multiplier = 50; expires_at = 600 });
}

abbrev struck_before : Registry
struck_before = record { asteroids = (2, once_struck) ∷ []; miner_locations = [] }

strike_merges_example :
    get_meteor_yield_multiplier 1500 2 (apply_meteor_yield_penalty 1000 2 20 1000 struck_before) ≡ (
      if ltb 1500 (max (1000 + 1000) (old_expiry once_struck.meteor_debuff))
      then min (100 - min 100 20) (old_multiplier once_struck.meteor_debuff)
      else 100)
strike_merges_example =
    strike_merges 1000 1500 2 20 1000 once_struck struck_before refl (omega arith)
