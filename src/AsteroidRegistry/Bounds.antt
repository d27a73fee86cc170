-- ===== src/AsteroidRegistry/Bounds.antt =====
-- Each operation of the registry keeps the effects of its asteroids within bounds.
use astroid_club.Prelude.{
  Bool-cases, Option-cases, arith, inl, inr, nat_eq, refl, sym, ℕ, ◌+◌, ◌-◌, ◌==◌, ◌∙◌, ◌≡◌,
}
use astroid_club.JsMap.{get}
use astroid_club.JsMap.Laws.{get-map_values}
use astroid_club.AsteroidRegistry.{
  Resource, Definition, Asteroid, Registry, create_asteroid_state, defended, attacked, struck,
  carbon, gold, oil, silver,
}
use astroid_club.AsteroidRegistry.Miners.{
  Draws, evicted, settled, leave_previous, remove_miner, add_miner, update_miner_drill_power,
  discovered, update_post_discovery, cleared, clear_expired_effects,
}
use astroid_club.AsteroidRegistry.Effects.{
  Sane, SaneAll, set-SaneAll, change-SaneAll, mechanics-Sane,
}

-- An asteroid with the effects of a sane one is sane.
pub same-Sane :
    (s t : Asteroid)
    → t.defense_buff ≡ s.defense_buff
    → t.attack_debuff ≡ s.attack_debuff
    → t.meteor_debuff ≡ s.meteor_debuff
    → t.syndicate_multiplier ≡ s.syndicate_multiplier
    → Sane s
    → Sane t
same-Sane s t d a m y i = record {
  defense = λ b e. i.defense b (sym d ∙ e);
  attack = λ b e. i.attack b (sym a ∙ e);
  meteor = rw m i.meteor;
  syndicate = rw y i.syndicate;
}

evicted-Sane : (w power : ℕ) (s : Asteroid) → Sane s → Sane (evicted w power s)
evicted-Sane w power s i = mechanics-Sane _ (same-Sane s _ refl refl refl refl i)

settled-Sane : (w power : ℕ) (s : Asteroid) → Sane s → Sane (settled w power s)
settled-Sane w power s i = mechanics-Sane _ (same-Sane s _ refl refl refl refl i)

pub struck-Sane : (now p d : ℕ) (s : Asteroid) → Sane s → Sane (struck now p d s)
struck-Sane now p d s i = record {
  defense = i.defense;
  attack = i.attack;
  meteor = elim (Option-cases s.meteor_debuff) [
    | inl e ↦ ground (arith, e)
    | inr (m, e) ↦ ground (arith, e, i.meteor)
  ];
  syndicate = i.syndicate;
}

pub defended-Sane : (minutes now : ℕ) (s : Asteroid) → Sane s → Sane (defended minutes now s)
defended-Sane minutes now s i = record {
  defense = λ b e. inl (ground (arith, e));
  attack = i.attack;
  meteor = i.meteor;
  syndicate = i.syndicate;
}

pub attacked-Sane : (now : ℕ) (s : Asteroid) → Sane s → Sane (attacked now s)
attacked-Sane now s i = record {
  defense = i.defense;
  attack = λ d e. ground (arith, e);
  meteor = i.meteor;
  syndicate = i.syndicate;
}

post_discovery-Sane :
    (x : Resource) (d : Draws) (s : Asteroid) → Sane s → Sane (update_post_discovery x d s)
post_discovery-Sane gold d s i = same-Sane s _ refl refl refl refl i
post_discovery-Sane silver d s i = same-Sane s _ refl refl refl refl i
post_discovery-Sane carbon d s i = i
post_discovery-Sane oil d s i = i

pub discovered-Sane : (now : ℕ) (d : Draws) (s : Asteroid) → Sane s → Sane (discovered now d s)
discovered-Sane now d s i =
    post_discovery-Sane s.definition.resource d _ (same-Sane s _ refl refl refl refl i)

cleared-Sane : (now : ℕ) (s : Asteroid) → Sane s → Sane (cleared now s)
cleared-Sane now s i = record {
  defense = λ b e. elim (Option-cases s.defense_buff) [
    | inl n ↦ ground (arith, n, e)
    | inr (b', e') ↦ ground (arith, e, e', i.defense b' e')
  ];
  attack = λ d e. elim (Option-cases s.attack_debuff) [
    | inl n ↦ ground (arith, n, e)
    | inr (d', e') ↦ ground (arith, e, e', i.attack d' e')
  ];
  meteor = elim (Option-cases s.meteor_debuff) [
    | inl e ↦ ground (arith, e)
    | inr (m, e) ↦ ground (arith, e, i.meteor)
  ];
  syndicate = i.syndicate;
}

pub created-Sane : (d : Definition) (header : ℕ) → Sane (create_asteroid_state d header)
unfolding create_asteroid_state
created-Sane d header = record {
  defense = λ b e. ground (arith, e);
  attack = λ d e. ground (arith, e);
  meteor = omega arith;
  syndicate = (omega arith, omega arith, omega arith);
}

pub remove_miner-SaneAll :
    (w power : ℕ) (r : Registry) → SaneAll r → SaneAll (remove_miner w power r).0
unfolding remove_miner
remove_miner-SaneAll w power r i b s h = elim (Option-cases (get w r.miner_locations)) [
  | inl e ↦ i b s (ground (arith, e, h))
  | inr (a, e) ↦ elim (Option-cases (get a r.asteroids)) [
    | inl e' ↦ i b s (ground (arith, e, e', h))
    | inr (t, e') ↦
        set-SaneAll a (evicted w power t) r b s (evicted-Sane w power t (i a t e')) i
          (ground (arith, e, e', h))
  ]
]

leave_previous-SaneAll : (w a : ℕ) (r : Registry) → SaneAll r → SaneAll (leave_previous w a r)
leave_previous-SaneAll w a r i b s h = elim (Option-cases (get w r.miner_locations)) [
  | inl e ↦ i b s (ground (arith, e, h))
  | inr (c, e) ↦ elim (Bool-cases (c == a)) [
    | inl y ↦ i b s (ground (arith, e, y, h))
    | inr n ↦ remove_miner-SaneAll w 0 r i b s (ground (arith, e, n, h))
  ]
]

pub add_miner-SaneAll :
    (w a power : ℕ) (r : Registry) → SaneAll r → SaneAll (add_miner w a power r).0
unfolding add_miner
add_miner-SaneAll w a power r i b s h = elim (Option-cases (get a r.asteroids)) [
  | inl e ↦ i b s (ground (arith, e, h))
  | inr (t, e) ↦
      change-SaneAll a (settled w power) (leave_previous w a r) (settled-Sane w power)
        (leave_previous-SaneAll w a r i) b s (ground (arith, e, h))
]

pub drills-SaneAll :
    (w old new : ℕ) (r : Registry) → SaneAll r → SaneAll (update_miner_drill_power w old new r)
unfolding update_miner_drill_power
drills-SaneAll w old new r i b s h = elim (Option-cases (get w r.miner_locations)) [
  | inl e ↦ i b s (ground (arith, e, h))
  | inr (a, e) ↦
      change-SaneAll a (λ x. record x { total_drill_power = x.total_drill_power + new - old }) r
        (λ x k. same-Sane x _ refl refl refl refl k) i b s (ground (arith, e, h))
]

pub clear-SaneAll : (now : ℕ) (r : Registry) → SaneAll r → SaneAll (clear_expired_effects now r)
unfolding clear_expired_effects
clear-SaneAll now r i b s h = elim (Option-cases (get b r.asteroids)) [
  | inl e ↦ ground (arith, e, h, get-map_values b (cleared now) r.asteroids)
  | inr (t, e) ↦
      let q : cleared now t ≡ s =
        ground (arith, e, h, get-map_values b (cleared now) r.asteroids) in
      rw (← q) (cleared-Sane now t (i b t e))
]
