-- ===== src/Expeditions.antt =====
-- server/game/expedition-tracker.ts: the life of an expedition, over the stake manager with its
-- registry and the cooldown manager. The clock, a drawn id, and the cap and slope of the attack power
-- are arguments.
pub mod Owners
pub mod Steps
pub mod History
mod Tests
use astroid_club.Prelude.{
  All, Bool, Bool-cases, Eq, List, Option, Option-cases, [], ap, arith, false, get_or, holds,
  if_cases, if_keeps, if◌then◌else◌, inl, inr, is_some, leb, length, length-append, ltb, map, max,
  min, nat_beq_iff, nat_eq, none, not, refl, some, subst, suc, sum_by, sum_by-append, sym, true,
  zero, ℕ, ◌%◌, ◌&&◌, ◌*◌, ◌++◌, ◌+◌, ◌-◌, ◌/◌, ◌<◌, ◌==◌, ◌||◌, ◌↔◌, ◌∙◌, ◌∷◌, ◌≡◌, ◌≢◌, ◌≤◌, ◌⊎◌,
}
use astroid_club.Prelude.Fraction.{Fraction, plus}
use astroid_club.JsMap.{JsMap, get, has, set, delete}
use astroid_club.AsteroidRegistry.{Registry, includes, get_asteroid, has_raid_immunity}
use astroid_club.AsteroidRegistry.{add_incoming_raid, remove_incoming_raid}
use astroid_club.Power.{attack_power}
use astroid_club.Cooldowns.{
  Manager, CooldownType, expedition_start, expedition_recovery, check_action, apply_cooldown,
}
use astroid_club.StakeManager.Positions.{Miner, Positions, change_miner}
use astroid_club.StakeManager.Presence.{effective_stake_at, process_bet, burn_bet}

pub data Status : Type 0 where
  active returning completed failed : Status

pub record Expedition : Type 0 where
  pub attackers : List ℕ
  pub source : ℕ
  pub target : ℕ
  pub started_at : ℕ
  pub expires_at : ℕ
  pub status : Status
  pub bets : JsMap ℕ ℕ
  pub attack_power : Fraction

pub record Tracker : Type 0 where
  pub expeditions : JsMap ℕ Expedition
  pub attacker_expeditions : JsMap ℕ ℕ
  pub cooldowns : Manager
  pub positions : Positions
  pub max_duration_ms : ℕ

abbrev pub default_duration_ms : ℕ
default_duration_ms = 10 * 60 * 1000

abbrev pub cleanup_ms : ℕ
cleanup_ms = 60 * 60 * 1000

unfoldable pub new_tracker : ℕ → Manager → Positions → Tracker
new_tracker duration c p = record {
  expeditions = [];
  attacker_expeditions = [];
  cooldowns = c;
  positions = p;
  max_duration_ms = duration;
}

abbrev pub is_active : Status → Bool
is_active active = true
is_active returning = false
is_active completed = false
is_active failed = false

abbrev pub is_resolved : Status → Bool
is_resolved active = false
is_resolved returning = false
is_resolved completed = true
is_resolved failed = true

-- The miner's state on an expedition, and back home.
abbrev pub sent_to : ℕ → ℕ → Miner → Miner
sent_to e a m = record m { expedition = some e; active = some a }

abbrev pub at_home : Miner → Miner
at_home m = record m { expedition = none; active = m.home_station }

abbrev pub is_blocked : ℕ → ℕ → CooldownType → Tracker → Bool
is_blocked now w kind t = is_some (check_action now w kind t.cooldowns)

-- The end of `createExpedition`.
unfoldable pub launch : (cap : ℕ) → Fraction → (now id w a b drill bet : ℕ) → Tracker → Tracker
launch cap slope now id w a b drill bet t =
    let e : Expedition = record {
      attackers = w ∷ [];
      source = a;
      target = b;
      started_at = now;
      expires_at = now + t.max_duration_ms;
      status = active;
      bets = (w, bet) ∷ [];
      attack_power = attack_power cap slope drill (effective_stake_at w a t.positions);
    } in
    let p = record t.positions { registry = add_incoming_raid b id t.positions.registry } in
    record t {
      expeditions = set id e t.expeditions;
      attacker_expeditions = set w id t.attacker_expeditions;
      cooldowns = apply_cooldown now w expedition_start t.cooldowns;
      positions = change_miner w (sent_to id b) p;
    }

-- The first tests of `createExpedition`: the places, and the cooldowns.
abbrev pub is_misplaced : (a b : ℕ) → Tracker → Bool
is_misplaced a b t =
    let r = t.positions.registry in
    not (is_some (get_asteroid a r)) || (not (is_some (get_asteroid b r)) || a == b)

abbrev pub is_resting : (now w : ℕ) → Tracker → Bool
is_resting now w t = is_blocked now w expedition_start t || is_blocked now w expedition_recovery t

-- The last tests of `createExpedition`, and those of `joinExpedition`.
abbrev pub is_held : (now w a b bet : ℕ) → Tracker → Bool
is_held now w a b bet t =
    has w t.attacker_expeditions
    || (has_raid_immunity now b t.positions.registry
        || (ltb 0 bet && not (process_bet w a bet t.positions)))

abbrev pub is_shut : (now w bet : ℕ) → Expedition → Tracker → Bool
is_shut now w bet e t =
    not (is_active e.status)
    || (has w t.attacker_expeditions
        || (is_blocked now w expedition_start t
            || (ltb 0 bet && not (process_bet w e.source bet t.positions))))

-- `none` where a test refuses it.
unfoldable pub create_expedition :
    (cap : ℕ) → Fraction → (now id w a b drill bet : ℕ) → Tracker → Option Tracker
unfolding launch
create_expedition cap slope now id w a b drill bet t =
    if is_misplaced a b t
    then none
    else if is_resting now w t
    then none
    else if is_held now w a b bet t
    then none
    else some (launch cap slope now id w a b drill bet t)

-- The end of `joinExpedition`.
unfoldable pub enlist :
    (cap : ℕ) → Fraction → (now id w drill bet : ℕ) → Expedition → Tracker → Tracker
enlist cap slope now id w drill bet e t =
    let more = attack_power cap slope drill (effective_stake_at w e.source t.positions) in
    let e' : Expedition = record e {
      attackers = e.attackers ++ (w ∷ []);
      bets = set w bet e.bets;
      attack_power = plus e.attack_power more;
    } in
    record t {
      expeditions = set id e' t.expeditions;
      attacker_expeditions = set w id t.attacker_expeditions;
      cooldowns = apply_cooldown now w expedition_start t.cooldowns;
      positions = change_miner w (sent_to id e.target) t.positions;
    }

unfoldable pub join_expedition :
    (cap : ℕ) → Fraction → (now id w drill bet : ℕ) → Tracker → Option Tracker
unfolding enlist
join_expedition cap slope now id w drill bet t = elim (get id t.expeditions) [
  | none ↦ none
  | some e ↦ if is_shut now w bet e t then none else some (enlist cap slope now id w drill bet e t)
]

-- A change of the states of several miners.
pub each_miner : (Miner → Miner) → List ℕ → Positions → Positions
each_miner f [] p = p
each_miner f (w ∷ ws) p = each_miner f ws (change_miner w f p)

unfoldable pub start_return : ℕ → Tracker → Tracker
unfolding each_miner
start_return id t = elim (get id t.expeditions) [
  | none ↦ t
  | some e ↦ record t {
    expeditions = set id (record e { status = returning }) t.expeditions;
    positions = each_miner (λ m. record m { active = some e.source }) e.attackers t.positions;
  }
]

-- The loop of `completeExpedition`, over the attackers.
pub release : List ℕ → JsMap ℕ ℕ → JsMap ℕ ℕ
release [] m = m
release (w ∷ ws) m = release ws (delete w m)

pub recover : ℕ → List ℕ → Manager → Manager
recover now [] c = c
recover now (w ∷ ws) c = recover now ws (apply_cooldown now w expedition_recovery c)

unfoldable pub complete_expedition : (now id : ℕ) → Bool → Tracker → Tracker
unfolding release recover each_miner
complete_expedition now id success t = elim (get id t.expeditions) [
  | none ↦ t
  | some e ↦
      let p = record t.positions {
        registry = remove_incoming_raid e.target id t.positions.registry;
      } in
      let e' = record e { status = if success then completed else failed } in
      record t {
        expeditions = set id e' t.expeditions;
        attacker_expeditions = release e.attackers t.attacker_expeditions;
        cooldowns = recover now e.attackers t.cooldowns;
        positions = each_miner at_home e.attackers p;
      }
]

-- `indexOf` and `splice`
pub drop_first : ℕ → List ℕ → List ℕ
drop_first w [] = []
drop_first w (v ∷ vs) = if w == v then vs else v ∷ drop_first w vs

-- The end of `leaveExpedition`.
unfoldable pub depart : (now id w : ℕ) → Expedition → Tracker → Tracker
unfolding drop_first
depart now id w e t =
    let rest = drop_first w e.attackers in
    let bet = get_or (get w e.bets) 0 in
    let burnt = if ltb 0 bet then burn_bet w e.source bet t.positions else t.positions in
    let e' = record e { attackers = rest; bets = delete w e.bets } in
    let empty = length rest == 0 in
    let p =
      if empty
      then record burnt { registry = remove_incoming_raid e.target id burnt.registry }
      else burnt in
    record t {
      expeditions = if empty then delete id t.expeditions else set id e' t.expeditions;
      attacker_expeditions = delete w t.attacker_expeditions;
      cooldowns = apply_cooldown now w expedition_recovery t.cooldowns;
      positions = change_miner w at_home p;
    }

unfoldable pub leave_expedition : (now w : ℕ) → Tracker → Tracker × Bool
unfolding depart
leave_expedition now w t = elim (get w t.attacker_expeditions) [
  | none ↦ (t, false)
  | some id ↦ elim (get id t.expeditions) [
    | none ↦ (t, false)
    | some e ↦ (depart now id w e t, true)
  ]
]

-- The ids of the expeditions that pass a test, in order.
pub select : (Expedition → Bool) → JsMap ℕ Expedition → List ℕ
select f [] = []
select f ((i, e) ∷ m) = let rest = select f m in if f e then i ∷ rest else rest

abbrev pub get_expeditions_targeting : ℕ → Tracker → List ℕ
get_expeditions_targeting a t = select (λ e. e.target == a && is_active e.status) t.expeditions

abbrev pub check_expired_expeditions : ℕ → Tracker → List ℕ
check_expired_expeditions now t =
    select (λ e. is_active e.status && leb e.expires_at now) t.expeditions

pub power_loop : ℕ → JsMap ℕ Expedition → Fraction → Fraction
power_loop a [] sum = sum
power_loop a ((i, e) ∷ m) sum =
    power_loop a m (if e.target == a && is_active e.status then plus sum e.attack_power else sum)

unfoldable pub get_total_attack_power : ℕ → Tracker → Fraction
unfolding power_loop
get_total_attack_power a t = power_loop a t.expeditions (record { num = 0; den = 1 })

abbrev pub is_stale : ℕ → Expedition → Bool
is_stale now e = is_resolved e.status && ltb (e.expires_at + cleanup_ms) now

-- The loop deletes as it goes; the entries that it has still to see stay.
pub cleanup_loop : ℕ → JsMap ℕ Expedition → JsMap ℕ Expedition → JsMap ℕ Expedition
cleanup_loop now [] m = m
cleanup_loop now ((i, e) ∷ rest) m =
    cleanup_loop now rest (if is_stale now e then delete i m else m)

unfoldable pub cleanup : ℕ → Tracker → Tracker
unfolding cleanup_loop
cleanup now t = record t { expeditions = cleanup_loop now t.expeditions t.expeditions }
