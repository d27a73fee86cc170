-- ===== src/AsteroidRegistry/History.antt =====
-- The registry over any history of calls: each wallet mines at one asteroid at most.
use astroid_club.Prelude.{
  List, Option-cases, [], arith, inl, inr, nat_eq, none, refl, ℕ, ◌+◌, ◌-◌, ◌∷◌, ◌≡◌,
}
use astroid_club.Prelude.Int.{ℤ}
use astroid_club.JsMap.{get}
use astroid_club.JsMap.Laws.{get-set, get-map_values}
use astroid_club.AsteroidRegistry.{
  Definition, Asteroid, Registry, new_registry, register_asteroid, create_asteroid_state,
  apply_defense_buff, apply_attack_debuff, apply_meteor_yield_penalty, add_incoming_raid,
  remove_incoming_raid, defended, attacked, struck,
}
use astroid_club.AsteroidRegistry.Miners.{
  Draws, remove_miner, add_miner, update_miner_drill_power, update_asteroid_stake,
  update_asteroid_difficulty, discovered, record_discovery_found, cleared, clear_expired_effects,
}
use astroid_club.AsteroidRegistry.Locations.{
  mines, located, Placed, change-Placed, remove_miner-Placed, add_miner-Placed,
}

-- A call of the registry that changes its state.
pub data Call : Type 0 where
  registers : Definition → ℕ → Call
  joins : (wallet asteroid power : ℕ) → Call
  parts : (wallet power : ℕ) → Call
  drills : (wallet old new : ℕ) → Call
  stakes : ℕ → ℤ → Call
  retargets : (asteroid difficulty target : ℕ) → Call
  finds : (now asteroid : ℕ) → Draws → Call
  defends : (minutes now asteroid : ℕ) → Call
  attacks : (now asteroid : ℕ) → Call
  strikes : (now asteroid percentage duration : ℕ) → Call
  adds_raid removes_raid : (asteroid expedition : ℕ) → Call
  expires : ℕ → Call

unfoldable pub apply : Call → Registry → Registry
apply (registers d header) r = register_asteroid d header r
apply (joins w a power) r = (add_miner w a power r).0
apply (parts w power) r = (remove_miner w power r).0
apply (drills w old new) r = update_miner_drill_power w old new r
apply (stakes a delta) r = update_asteroid_stake a delta r
apply (retargets a d t) r = update_asteroid_difficulty a d t r
apply (finds now a d) r = record_discovery_found now a d r
apply (defends minutes now a) r = apply_defense_buff minutes now a r
apply (attacks now a) r = apply_attack_debuff now a r
apply (strikes now a p d) r = apply_meteor_yield_penalty now a p d r
apply (adds_raid a e) r = add_incoming_raid a e r
apply (removes_raid a e) r = remove_incoming_raid a e r
apply (expires now) r = clear_expired_effects now r

-- The registry after a history (newest first).
unfoldable pub after : List Call → Registry
after [] = new_registry
after (x ∷ older) = apply x (after older)

-- An asteroid is registered at most once: a second time would drop its miners.
abbrev pub Fresh : Call → Registry → Type 0
Fresh (registers d header) r = get d.id r.asteroids ≡ none
Fresh _ r = Unit

unfoldable pub FreshAll : List Call → Type 0
FreshAll [] = Unit
FreshAll (x ∷ older) = Fresh x (after older) × FreshAll older

register_asteroid-Placed :
    (d : Definition) (header : ℕ) (r : Registry)
    → get d.id r.asteroids ≡ none
    → Placed r
    → Placed (register_asteroid d header r)
unfolding register_asteroid create_asteroid_state
register_asteroid-Placed d header r e p w a =
    ground (arith, e, p w a, get-set a d.id (create_asteroid_state d header) r.asteroids)

discovered-miners :
    (now : ℕ) (d : Draws) (s : Asteroid) → (discovered now d s).active_miners ≡ s.active_miners
discovered-miners now d s = ground arith

clear_expired_effects-Placed :
    (now : ℕ) (r : Registry) → Placed r → Placed (clear_expired_effects now r)
unfolding clear_expired_effects
clear_expired_effects-Placed now r p w a =
    ground (arith, p w a, get-map_values a (cleared now) r.asteroids)

drills-Placed :
    (w old new : ℕ) (r : Registry) → Placed r → Placed (update_miner_drill_power w old new r)
unfolding update_miner_drill_power
drills-Placed w old new r p v b = elim (Option-cases (get w r.miner_locations)) [
  | inl e ↦ ground (arith, e, p v b)
  | inr (a, e) ↦
      let moved =
        change-Placed a (λ s. record s { total_drill_power = s.total_drill_power + new - old }) r
          (λ s. refl) p v b in
      ground (arith, e, moved)
]

apply-Placed : (x : Call) (r : Registry) → Fresh x r → Placed r → Placed (apply x r)
unfolding apply update_asteroid_stake update_asteroid_difficulty record_discovery_found
    apply_defense_buff apply_attack_debuff apply_meteor_yield_penalty add_incoming_raid
    remove_incoming_raid
apply-Placed (registers d header) r f p = register_asteroid-Placed d header r f p
apply-Placed (joins w a power) r f p = add_miner-Placed w a power r p
apply-Placed (parts w power) r f p = remove_miner-Placed w power r p
apply-Placed (drills w old new) r f p = drills-Placed w old new r p
apply-Placed (stakes a delta) r f p = change-Placed a _ r (λ s. refl) p
apply-Placed (retargets a d t) r f p = change-Placed a _ r (λ s. refl) p
apply-Placed (finds now a d) r f p =
    change-Placed a (discovered now d) r (discovered-miners now d) p
apply-Placed (defends minutes now a) r f p = change-Placed a (defended minutes now) r (λ s. refl) p
apply-Placed (attacks now a) r f p = change-Placed a (attacked now) r (λ s. refl) p
apply-Placed (strikes now a x d) r f p = change-Placed a (struck now x d) r (λ s. refl) p
apply-Placed (adds_raid a e) r f p = change-Placed a _ r (λ s. ground arith) p
apply-Placed (removes_raid a e) r f p = change-Placed a _ r (λ s. refl) p
apply-Placed (expires now) r f p = clear_expired_effects-Placed now r p

-- After any history that registers no asteroid twice, an asteroid counts a wallet among its miners
-- exactly where the index has the wallet there, so that a wallet mines at one asteroid at most.
pub after-Placed :
    (xs : List Call) (w a : ℕ) → FreshAll xs → mines w a (after xs) ≡ located w a (after xs)
unfolding after FreshAll new_registry
after-Placed [] w a f = refl
after-Placed (x ∷ xs) w a f = apply-Placed x (after xs) f.0 (λ v b. after-Placed xs v b f.1) w a
