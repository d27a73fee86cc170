-- ===== src/Distribution/Ticks.antt =====
-- What a tick adds to the refineries, and what a change of a miner's numbers does to it.
use astroid_club.Prelude.{
  Option, Option-cases, [], arith, if◌then◌else◌, inl, inr, nat_eq, none, refl, some, ℕ, ◌&&◌, ◌*◌,
  ◌+◌, ◌-◌, ◌==◌, ◌∷◌, ◌≡◌, ◌≤◌,
}
use astroid_club.Prelude.Fraction.{Fraction}
use astroid_club.JsMap.{JsMap, get, set, IsUnique}
use astroid_club.JsMap.Laws.{get-set, get-update, update-IsUnique}
use astroid_club.Power.{Overrides, get_stake_tier}
use astroid_club.Refinery.{
  Contribution, Refinery, Manager, Update, contributed, refinery_of, update_miner_contribution,
}
use astroid_club.Distribution.{
  ActiveMiner, MinerUpdate, Service, is_recent, patched, rolled, tick_loop, tick_contributions,
  update_miner_stats,
}

abbrev pub power_in : Option Contribution → ℕ
power_in none = 0
power_in (some c) = c.power_ms

-- The power that a wallet has built up at an asteroid since its last payout.
abbrev pub power_at : ℕ → ℕ → Manager → ℕ
power_at a w r = elim (get a r.refineries) [ none ↦ 0 | some x ↦ power_in (get w x.contributions) ]

power_in-contributed :
    (tier : ℕ) (u : Update) (c : Option Contribution)
    → power_in (some (contributed tier u c)) ≡ power_in c + u.power * u.delta_ms
power_in-contributed tier u none = omega arith
power_in-contributed tier u (some c) = refl

power_at-refinery_of :
    (now a w : ℕ) (r : Manager)
    → power_in (get w (refinery_of now a r).contributions) ≡ power_at a w r
power_at-refinery_of now a w r = elim (Option-cases (get a r.refineries)) [
  | inl e ↦ ground (arith, e)
  | inr e ↦ ground (arith, e.1)
]

-- The entry of another wallet or at another asteroid stays.
power_at-update_miner_contribution :
    (o : Overrides) (price : Fraction) (now a w : ℕ) (u : Update) (r : Manager)
    → power_at a w (update_miner_contribution o price now u r)
      ≡ power_at a w r + (if a == u.asteroid && w == u.wallet then u.power * u.delta_ms else 0)
unfolding update_miner_contribution
power_at-update_miner_contribution o price now a w u r =
    let x = refinery_of now u.asteroid r in
    let old = get u.wallet x.contributions in
    let tier = (get_stake_tier o price u.stake).drill in
    let c = contributed tier u old in
    let x' : Refinery = record x { contributions = set u.wallet c x.contributions } in
    ground (
      arith,
      get-set a u.asteroid x' r.refineries,
      get-set w u.wallet c x.contributions,
      power_in-contributed tier u old,
      power_at-refinery_of now u.asteroid w r,
    )

-- What a tick counts for a wallet at an asteroid.
abbrev pub counted_of : ℕ → ℕ → Option ActiveMiner → ℕ
counted_of now a none = 0
counted_of now a (some m) =
    if is_recent now m then 0 else if a == m.asteroid then m.power * (now - m.last_update) else 0

tick_loop-power_at :
    (o : Overrides) (price : Fraction) (now a w : ℕ) (ms : JsMap ℕ ActiveMiner) (r : Manager)
    → IsUnique ms
    → power_at a w (tick_loop o price now ms r).1 ≡ power_at a w r + counted_of now a (get w ms)
unfolding tick_loop
tick_loop-power_at o price now a w [] r u = omega arith
tick_loop-power_at o price now a w ((v, m) ∷ rest) r u =
    let r' = update_miner_contribution o price now (rolled now v m) r in
    ground (
      arith,
      u.0,
      tick_loop-power_at o price now a w rest r u.1,
      tick_loop-power_at o price now a w rest r' u.1,
      power_at-update_miner_contribution o price now a w (rolled now v m) r,
    )

-- A tick adds to each wallet, at the asteroid where it is active, its power times the time since its
-- last update where that is at least a second, and nothing anywhere else.
pub tick_counts :
    (o : Overrides) (price : Fraction) (now a w : ℕ) (s : Service)
    → IsUnique s.active
    → power_at a w (tick_contributions o price now s).refinery
      ≡ power_at a w s.refinery + counted_of now a (get w s.active)
unfolding tick_contributions
tick_counts o price now a w s u = tick_loop-power_at o price now a w s.active s.refinery u

abbrev pub no_change : MinerUpdate
no_change = record {
  power = none;
  stake = none;
  loyalty_days = none;
  asteroid = none;
  resource = none;
}

split_time : (p l u n : ℕ) → l ≤ u → u ≤ n → p * (n - u) + p * (u - l) ≡ p * (n - l)
split_time p l u n h k = let parts : n - l ≡ (n - u) + (u - l) = omega arith in grind (arith, parts)

-- A change of nothing at time `u` costs a miner, at a tick a second or more later, the power for the
-- time from the last update to `u`.
pub update_forgets :
    (o : Overrides) (price : Fraction) (u now w : ℕ) (m : ActiveMiner) (s : Service)
    → IsUnique s.active
    → get w s.active ≡ some m
    → m.last_update ≤ u
    → u + 1000 ≤ now
    → let s' = update_miner_stats u w no_change s in
      power_at m.asteroid w (tick_contributions o price now s').refinery
        + m.power * (u - m.last_update)
      ≡ power_at m.asteroid w (tick_contributions o price now s).refinery
unfolding update_miner_stats patched
update_forgets o price u now w m s uni e early late =
    let s' = update_miner_stats u w no_change s in
    ground (
      arith,
      e,
      tick_counts o price now m.asteroid w s uni,
      tick_counts o price now m.asteroid w s'
          (update-IsUnique w (patched u no_change) s.active uni),
      get-update w w (patched u no_change) s.active,
      split_time m.power m.last_update u now early (omega (arith, late)),
    )
