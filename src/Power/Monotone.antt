-- ===== src/Power/Monotone.antt =====
-- A larger stake never gives less power, whatever the thresholds and the price.
use astroid_club.Prelude.{
  All, Bool, List, Option-cases, [], arith, if◌then◌else◌, inl, inr, leb, nat_eq, some, subst, true,
  ℕ, ◌&&◌, ◌*◌, ◌-◌, ◌∷◌, ◌≡◌, ◌≤◌,
}
use astroid_club.Prelude.Fraction.{Fraction}
use native.Mathlib.Nat.{mul-le-mul, mul-le-mul_left, mul-le-mul_right}
use astroid_club.Power.{
  TierDefinition, Overrides, base_tier, upper_tiers, reaches, highest, get_stake_tier,
  effective_drill_power, defense_power, soft_cap_attack_drill, attack_power,
}

reaches_mono :
    (price : Fraction) (s s' : ℕ) (d : TierDefinition)
    → s ≤ s'
    → reaches price s d ≡ true
    → reaches price s' d ≡ true
unfolding reaches
reaches_mono price s s' d h r = ground (arith, h, r, mul-le-mul_right price.num h)

-- One tier is at most another.
abbrev AtMost : TierDefinition → TierDefinition → Type 0
AtMost a b = (a.drill ≤ b.drill) × (a.defense ≤ b.defense)

-- The multipliers rise along the ladder.
abbrev Rising : List TierDefinition → Type 0
Rising [] = Unit
Rising (d ∷ ds) = All (λ e. AtMost d e) ds × Rising ds

highest-All :
    (P : TierDefinition → Type 0) (f : TierDefinition → Bool) (ds : List TierDefinition)
    (x : TierDefinition)
    → All P ds
    → highest f ds ≡ some x
    → P x
unfolding highest
highest-All P f [] x a e = ground (arith, e)
highest-All P f (d ∷ ds) x a e = elim (Option-cases (highest f ds)) [
  | inl n ↦ let q : d ≡ x = ground (arith, n, e) in subst P (q) a.0
  | inr (y, s) ↦ highest-All P f ds x a.1 (ground (arith, s, e))
]

-- A test that passes wherever another does finds a tier that is at least as high.
highest_mono :
    (f g : TierDefinition → Bool) (ds : List TierDefinition) (x : TierDefinition)
    → ((d : TierDefinition) → f d ≡ true → g d ≡ true)
    → Rising ds
    → highest f ds ≡ some x
    → (y : TierDefinition) × (highest g ds ≡ some y) × AtMost x y
unfolding highest
highest_mono f g [] x k r e = ground (arith, e)
highest_mono f g (d ∷ ds) x k r e = elim (Option-cases (highest f ds)) [
  | inr (z, m) ↦
      let ih = highest_mono f g ds x k r.1 (ground (arith, m, e)) in
      (ih.0, ground (arith, ih.1), ih.2)
  | inl n ↦
      let q : d ≡ x = ground (arith, n, e) in
      let fd : f d ≡ true = ground (arith, n, e) in
      elim (Option-cases (highest g ds)) [
        | inr (y, m) ↦ (y, ground (arith, m), rw (← q) (highest-All (λ b. AtMost d b) g ds y r.0 m))
        | inl m ↦ (d, ground (arith, m, k d fd), rw q (omega arith, omega arith))
      ]
]

ladder-Rising : (o : Overrides) → Rising (base_tier ∷ upper_tiers o)
ladder-Rising o = omega arith

base-reached :
    (price : Fraction) (s : ℕ) (ds : List TierDefinition)
    → (x : TierDefinition) × (highest (reaches price s) (base_tier ∷ ds) ≡ some x)
unfolding highest reaches
base-reached price s ds = elim (Option-cases (highest (reaches price s) ds)) [
  | inl e ↦ (base_tier, ground (arith, e))
  | inr (x, e) ↦ (x, ground (arith, e))
]

-- A larger stake is in the same tier or a higher one.
tier_mono :
    (o : Overrides) (price : Fraction) (s s' : ℕ)
    → s ≤ s'
    → AtMost (get_stake_tier o price s) (get_stake_tier o price s')
unfolding get_stake_tier
tier_mono o price s s' h =
    let b = base-reached price s (upper_tiers o) in
    let m =
      highest_mono (reaches price s) (reaches price s') (base_tier ∷ upper_tiers o) b.0
        (λ d. reaches_mono price s s' d h) (ladder-Rising o) b.1 in
    ground (arith, b.1, m.1, m.2)

soft_cap-den :
    (cap : ℕ) (slope : Fraction) (d : ℕ) → (soft_cap_attack_drill cap slope d).den ≡ slope.den
unfolding soft_cap_attack_drill
soft_cap-den cap slope d = ground arith

soft_cap_mono :
    (cap : ℕ) (slope : Fraction) (d d' : ℕ)
    → d ≤ d'
    → (soft_cap_attack_drill cap slope d).num ≤ (soft_cap_attack_drill cap slope d').num
unfolding soft_cap_attack_drill
soft_cap_mono cap slope d d' h =
    let below : d ≤ cap → d * slope.den ≤ cap * slope.den = λ k. mul-le-mul_right slope.den k in
    let above : (d - cap) * slope.num ≤ (d' - cap) * slope.num =
      mul-le-mul_right slope.num (omega (arith, h)) in
    ground (arith, h, mul-le-mul_right slope.den h, below, above)

attack_power_mono :
    (cap : ℕ) (slope : Fraction) (d d' s s' : ℕ)
    → d ≤ d'
    → s ≤ s'
    → (attack_power cap slope d s).num * (attack_power cap slope d' s').den
      ≤ (attack_power cap slope d' s').num * (attack_power cap slope d s).den
unfolding attack_power
attack_power_mono cap slope d d' s s' k h =
    rw (soft_cap-den cap slope d, soft_cap-den cap slope d')
      (mul-le-mul_right (10 * slope.den)
        (omega (arith, soft_cap_mono cap slope d d' k, mul-le-mul_right slope.den h)))

-- Whatever the thresholds, the price, the soft cap and its slope, a larger stake gives at least the
-- drill power, the defense power and, with at least the drill, the attack power of a smaller one.
pub power_mono :
    (o : Overrides) (price slope : Fraction) (cap base s s' days drill drill' : ℕ)
    (carbon home : Bool)
    → s ≤ s'
    → drill ≤ drill'
    → ((effective_drill_power o price base s days carbon).num
        ≤ (effective_drill_power o price base s' days carbon).num)
      × ((defense_power o price s home).num ≤ (defense_power o price s' home).num)
      × ((attack_power cap slope drill s).num * (attack_power cap slope drill' s').den
          ≤ (attack_power cap slope drill' s').num * (attack_power cap slope drill s).den)
unfolding effective_drill_power defense_power
power_mono o price slope cap base s s' days drill drill' carbon home h k =
    let t = tier_mono o price s s' h in
    (
      mul-le-mul_right (if carbon && leb 7 days then 110 else 100) (mul-le-mul_left base t.0),
      mul-le-mul_right (if home then 150 else 100) (mul-le-mul h t.1),
      attack_power_mono cap slope drill drill' s s' k h,
    )
