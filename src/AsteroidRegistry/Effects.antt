-- ===== src/AsteroidRegistry/Effects.antt =====
-- Buffs, debuffs and multipliers of an asteroid, and their bounds over any history.
use astroid_club.Prelude.{
  Bool-cases, Option, Option-cases, arith, if◌then◌else◌, inl, inr, length, ltb, max, min, nat_eq,
  none, some, ℕ, ◌*◌, ◌+◌, ◌-◌, ◌==◌, ◌≡◌, ◌≤◌, ◌⊎◌,
}
use astroid_club.Prelude.Fraction.{one, percent}
use astroid_club.JsMap.{get, set}
use astroid_club.JsMap.Laws.{get-set}
use astroid_club.AsteroidRegistry.{
  Asteroid, Registry, MeteorDebuff, change, apply_meteor_yield_penalty, update_resource_mechanics,
  struck, get_meteor_yield_multiplier, syndicate_multiplier_of, is_oil, DefenseBuff, AttackDebuff,
}

abbrev pub old_multiplier : Option MeteorDebuff → ℕ
old_multiplier none = 100
old_multiplier (some d) = d.yield_multiplier

abbrev pub old_expiry : Option MeteorDebuff → ℕ
old_expiry none = 0
old_expiry (some d) = d.expires_at

-- After a strike, a registered asteroid's yield, where its recorded multiplier is at most 100 percent,
-- has the larger of the two penalties, the new one and the one that was recorded, until the later of
-- their ends, and none from then on.
pub strike_merges :
    (now t a percentage duration : ℕ) (s : Asteroid) (r : Registry)
    → get a r.asteroids ≡ some s
    → old_multiplier s.meteor_debuff ≤ 100
    → get_meteor_yield_multiplier t a (apply_meteor_yield_penalty now a percentage duration r) ≡ (
        if ltb t (max (now + duration) (old_expiry s.meteor_debuff))
        then min (100 - min 100 percentage) (old_multiplier s.meteor_debuff)
        else 100)
unfolding get_meteor_yield_multiplier apply_meteor_yield_penalty
strike_merges now t a percentage duration s r e h = elim (Option-cases s.meteor_debuff) [
  | inl m ↦ ground (arith, e, m, get-set a a (struck now percentage duration s) r.asteroids)
  | inr (d, m) ↦ ground (arith, e, h, m, get-set a a (struck now percentage duration s) r.asteroids)
]

-- Every effect of an asteroid is one that the code can give it.
pub record Sane (s : Asteroid) : Type 0 where
  pub defense :
      (b : DefenseBuff) → s.defense_buff ≡ some b → (b.boost ≡ percent 110) ⊎ (b.boost ≡ one)
  pub attack : (d : AttackDebuff) → s.attack_debuff ≡ some d → d.reduction ≡ percent 80
  pub meteor : old_multiplier s.meteor_debuff ≤ 100
  pub syndicate :
      (1 ≤ s.syndicate_multiplier.den)
      × (s.syndicate_multiplier.den ≤ s.syndicate_multiplier.num)
      × (s.syndicate_multiplier.num ≤ 3 * s.syndicate_multiplier.den)

-- The multiplier of an oil asteroid is between 1 and 3.
syndicate_multiplier_bounds :
    (n : ℕ)
    → let f = syndicate_multiplier_of n in (1 ≤ f.den) × (f.den ≤ f.num) × (f.num ≤ 3 * f.den)
unfolding syndicate_multiplier_of
syndicate_multiplier_bounds n = ground arith

pub mechanics-Sane : (s : Asteroid) → Sane s → Sane (update_resource_mechanics s)
unfolding update_resource_mechanics
mechanics-Sane s i = elim (Bool-cases (is_oil s.definition.resource)) [
  | inl e ↦
      rw (update_resource_mechanics, e)
        (record {
          defense = i.defense;
          attack = i.attack;
          meteor = i.meteor;
          syndicate = syndicate_multiplier_bounds (length s.active_miners);
        })
  | inr e ↦ rw (update_resource_mechanics, e) i
]

abbrev pub SaneAll : Registry → Type 0
SaneAll r = (a : ℕ) (s : Asteroid) → get a r.asteroids ≡ some s → Sane s

pub set-SaneAll :
    (a : ℕ) (t : Asteroid) (r : Registry) (b : ℕ) (s : Asteroid)
    → Sane t
    → SaneAll r
    → get b (set a t r.asteroids) ≡ some s
    → Sane s
set-SaneAll a t r b s k i e = elim (Bool-cases (b == a)) [
  | inl h ↦ let q : t ≡ s = ground (arith, h, e, get-set b a t r.asteroids) in rw (← q) k
  | inr h ↦ i b s (ground (arith, h, e, get-set b a t r.asteroids))
]

pub change-SaneAll :
    (a : ℕ) (f : Asteroid → Asteroid) (r : Registry)
    → ((s : Asteroid) → Sane s → Sane (f s))
    → SaneAll r
    → SaneAll (change a f r)
change-SaneAll a f r k i b s h = elim (Option-cases (get a r.asteroids)) [
  | inl e ↦ i b s (ground (arith, e, h))
  | inr (t, e) ↦ set-SaneAll a (f t) r b s (k t (i a t e)) i (ground (arith, e, h))
]
