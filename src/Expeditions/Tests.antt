-- ===== src/Expeditions/Tests.antt =====
-- Runs of the expedition tracker.
use astroid_club.Prelude.{
  List, Option, [], false, get_or, nat_eq, none, refl, some, true, ℕ, ◌∷◌, ◌≡◌,
}
use astroid_club.Prelude.Fraction.{one}
use astroid_club.JsMap.{get}
use astroid_club.AsteroidRegistry.{
  has_raid_immunity, includes, Definition, gold, Registry, create_asteroid_state,
}
use astroid_club.Cooldowns.{check_action, apply_cooldown, Manager, default_duration}
use astroid_club.StakeManager.Positions.{Positions, new_positions}
use astroid_club.Expeditions.Owners.{is_open}
use astroid_club.Expeditions.{
  failed, Expedition, Tracker, new_tracker, create_expedition, join_expedition, start_return,
  leave_expedition,
}
use astroid_club.Expeditions.History.{
  Call, creates, joins, returns, leaves, after, apply, Timely, on_one_expedition,
}

abbrev rock : Definition
rock = record { id = 7; resource = gold; base_discovery_time = 600_000; base_reward = one }

abbrev registry : Registry
registry = record {
  asteroids =
      (7, create_asteroid_state rock 0)
      ∷ (8, create_asteroid_state (record rock { id = 8 }) 0)
      ∷ [];
  miner_locations = [];
}

abbrev positions : Positions
positions = new_positions false registry

abbrev cooldowns : Manager
cooldowns = record { cooldowns = []; durations = default_duration }

abbrev raid : List Call
raid =
    returns 100
    ∷ leaves 30 1
    ∷ joins 1000 one 20 100 2 50 0
    ∷ creates 1000 one 10 100 1 7 8 60 0
    ∷ []

abbrev start : Tracker
start = new_tracker 600_000 cooldowns positions

abbrev attackers_of : Option Expedition → List ℕ
attackers_of none = []
attackers_of (some e) = e.attackers

two_then_one : attackers_of (get 100 (after start raid).expeditions) ≡ 2 ∷ []
unfolding after apply new_tracker new_positions create_expedition join_expedition leave_expedition
    start_return create_asteroid_state check_action has_raid_immunity apply_cooldown
two_then_one = refl

abbrev nobody : Expedition
nobody = record {
  attackers = [];
  source = 0;
  target = 0;
  started_at = 0;
  expires_at = 0;
  status = failed;
  bets = [];
  attack_power = one;
}

abbrev escort : Expedition
escort = get_or (get 100 (after start raid).expeditions) nobody

raid_Timely : Timely start raid
unfolding Timely after apply new_tracker new_positions create_expedition join_expedition
    leave_expedition start_return create_asteroid_state check_action has_raid_immunity
    apply_cooldown
raid_Timely = (refl, (refl, (refl, (refl, tt))))

escort_found : get 100 (after start raid).expeditions ≡ some escort
unfolding after apply new_tracker new_positions create_expedition join_expedition leave_expedition
    start_return create_asteroid_state check_action has_raid_immunity apply_cooldown
escort_found = refl

escort_open : (is_open escort.status ≡ true) × (includes 2 escort.attackers ≡ true)
unfolding includes after apply new_tracker new_positions create_expedition join_expedition
    leave_expedition start_return create_asteroid_state check_action has_raid_immunity
    apply_cooldown
escort_open = (refl, refl)

on_one_expedition_example : get 2 (after start raid).attacker_expeditions ≡ some 100
on_one_expedition_example =
    on_one_expedition 600_000 cooldowns positions raid 100 2 escort raid_Timely escort_found
      escort_open.0 escort_open.1
