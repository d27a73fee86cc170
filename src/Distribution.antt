-- ===== src/Distribution.antt =====
-- server/game/distribution-service.ts: the miners whose time is counted, the periodic tick that adds
-- it to the refineries, and the hourly payout to the pending yield or, where the chain is on, to a
-- listener. The timers are calls with the time as an argument; power is in a fixed unit and time in
-- milliseconds, as for the refineries.
pub mod Payout
pub mod Ticks
mod Tests
use astroid_club.Prelude.{
  All, Bool, Bool-cases, Eq, List, Option, Option-cases, [], ap, arith, false, get_or, holds,
  if_cases, if_keeps, if◌then◌else◌, inl, inr, is_some, leb, length, length-append, ltb, map, max,
  min, nat_beq_iff, nat_eq, none, not, refl, some, subst, suc, sum_by, sum_by-append, sym, true,
  zero, ℕ, ◌%◌, ◌&&◌, ◌*◌, ◌++◌, ◌+◌, ◌-◌, ◌/◌, ◌<◌, ◌==◌, ◌||◌, ◌↔◌, ◌∙◌, ◌∷◌, ◌≡◌, ◌≢◌, ◌≤◌, ◌⊎◌,
}
use astroid_club.Prelude.Fraction.{Fraction}
use astroid_club.JsMap.{JsMap, get, set, delete, update, size, values}
use astroid_club.AsteroidRegistry.{Resource}
use astroid_club.Power.{Overrides}
use astroid_club.Refinery.{
  Manager, Distribution, Update, update_miner_contribution, distribute_all, should_distribute,
  add_to_refinery,
}
use astroid_club.Refinery.Split.{YieldSplit, calculate_yield_split}
use astroid_club.StakeManager.Credits.{Credits, add_pending_yield}

-- A miner whose time is counted; the wallet is the key.
pub record ActiveMiner : Type 0 where
  pub asteroid : ℕ
  pub power : ℕ
  pub stake : ℕ
  pub loyalty_days : ℕ
  pub resource : Resource
  pub last_update : ℕ

pub record MinerUpdate : Type 0 where
  pub power : Option ℕ
  pub stake : Option ℕ
  pub loyalty_days : Option ℕ
  pub asteroid : Option ℕ
  pub resource : Option Resource

-- A call of the payout listener.
pub record Sent : Type 0 where
  pub wallet : ℕ
  pub amount : ℕ
  pub asteroid : ℕ

pub record Service : Type 0 where
  pub refinery : Manager
  pub credits : Credits
  pub chain_enabled : Bool
  pub has_listener : Bool
  pub active : JsMap ℕ ActiveMiner
  pub running : Bool
  -- The calls of the payout listener, newest first.
  pub sent : List Sent

unfoldable pub new_service : Manager → Credits → Bool → Bool → Service
new_service r c chain listener = record {
  refinery = r;
  credits = c;
  chain_enabled = chain;
  has_listener = listener;
  active = [];
  running = false;
  sent = [];
}

-- The result says whether the timers are set anew.
abbrev pub start : Service → Service × Bool
start s = if s.running then (s, false) else (record s { running = true }, true)

abbrev pub stop : Service → Service
stop s = record s { running = false }

unfoldable pub register_active_miner : ℕ → ℕ → ℕ → Resource → ℕ → ℕ → ℕ → Service → Service
register_active_miner now w a res power stake days s =
    let miner : ActiveMiner = record {
      asteroid = a;
      power = power;
      stake = stake;
      loyalty_days = days;
      resource = res;
      last_update = now;
    } in
    record s { active = set w miner s.active }

unfoldable pub unregister_active_miner : ℕ → Service → Service
unregister_active_miner w s = record s { active = delete w s.active }

-- A field keeps its value where the update leaves it out.
unfoldable pub patched : ℕ → MinerUpdate → ActiveMiner → ActiveMiner
patched now u m = record {
  asteroid = get_or u.asteroid m.asteroid;
  power = get_or u.power m.power;
  stake = get_or u.stake m.stake;
  loyalty_days = get_or u.loyalty_days m.loyalty_days;
  resource = get_or u.resource m.resource;
  last_update = now;
}

unfoldable pub update_miner_stats : ℕ → ℕ → MinerUpdate → Service → Service
unfolding patched
update_miner_stats now w u s = record s { active = update w (patched now u) s.active }

abbrev pub get_active_miner : ℕ → Service → Option ActiveMiner
get_active_miner w s = get w s.active

abbrev pub get_active_miner_count : Service → ℕ
get_active_miner_count s = size s.active

abbrev pub get_active_miners : Service → List ActiveMiner
get_active_miners s = values s.active

-- Less than a second since the last tick or change.
abbrev pub is_recent : ℕ → ActiveMiner → Bool
is_recent now m = ltb (now - m.last_update) 1000

abbrev pub rolled : ℕ → ℕ → ActiveMiner → Update
rolled now w m = record {
  asteroid = m.asteroid;
  wallet = w;
  power = m.power;
  stake = m.stake;
  loyalty_days = m.loyalty_days;
  resource = m.resource;
  delta_ms = now - m.last_update;
}

pub tick_loop :
    Overrides → Fraction → ℕ → JsMap ℕ ActiveMiner → Manager → JsMap ℕ ActiveMiner × Manager
tick_loop o price now [] r = ([], r)
tick_loop o price now ((w, m) ∷ rest) r =
    let skipped = tick_loop o price now rest r in
    let r' = update_miner_contribution o price now (rolled now w m) r in
    let counted = tick_loop o price now rest r' in
    if is_recent now m
    then ((w, m) ∷ skipped.0, skipped.1)
    else ((w, record m { last_update = now }) ∷ counted.0, counted.1)

unfoldable pub tick_contributions : Overrides → Fraction → ℕ → Service → Service
unfolding tick_loop
tick_contributions o price now s =
    let done = tick_loop o price now s.active s.refinery in
    record s { active = done.0; refinery = done.1 }

-- One payout of a result.
unfoldable pub pay : ℕ → ℕ × ℕ → Service → Service
pay a (w, n) s =
    if s.chain_enabled
    then (if s.has_listener
        then record s { sent = record { wallet = w; amount = n; asteroid = a } ∷ s.sent }
        else s)
    else record s { credits = add_pending_yield w a n s.credits }

pub pay_all : ℕ → JsMap ℕ ℕ → Service → Service
unfolding pay
pay_all a [] s = s
pay_all a (p ∷ rest) s = pay_all a rest (pay a p s)

pub pay_results : List Distribution → Service → Service
unfolding pay_all
pay_results [] s = s
pay_results (d ∷ ds) s = pay_results ds (pay_all d.asteroid d.payouts s)

unfoldable pub perform_distribution : ℕ → Service → Service × List Distribution
unfolding pay_results
perform_distribution now s =
    let done = distribute_all now s.refinery in
    (pay_results done.1 (record s { refinery = done.0 }), done.1)

-- What the second timer does.
unfoldable pub check_distribution : ℕ → Service → Service
unfolding perform_distribution
check_distribution now s =
    if should_distribute now s.refinery then (perform_distribution now s).0 else s

unfoldable pub handle_discovery : ℕ → ℕ → ℕ → Service → Service × YieldSplit
handle_discovery now a n s =
    let split = calculate_yield_split n in
    (
      if ltb 0 split.refinery_share
          then record s { refinery = (add_to_refinery now a split.refinery_share s.refinery).0 }
          else s,
      split,
    )
