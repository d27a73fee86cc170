-- ===== src/Refinery/Rounding.antt =====
-- How far the split of a yield is off, and that it never gives out more than there is.
use astroid_club.Prelude.{
  Bool-cases, arith, false, if_cases, if◌then◌else◌, inl, inr, ltb, nat_eq, refl, subst, suc, sym,
  zero, ℕ, ◌%◌, ◌*◌, ◌+◌, ◌/◌, ◌<◌, ◌==◌, ◌≡◌, ◌≤◌, ◌⊎◌,
}
use native.Mathlib.Nat.{div-add-mod, mod-lt, mul-le-mul_left, mul_comm}
use astroid_club.Refinery.Split.{
  precision, spacing, round_even, round_double, calculate_yield_split,
}

-- 2 ^ 52
abbrev half_precision : ℕ
half_precision = 4_503_599_627_370_496

pos_precision : 0 < precision
pos_precision = omega arith

pos_double : 0 < precision + precision
pos_double = omega arith

at_least : (n k : ℕ) → 0 < k → ltb (n / k) precision ≡ false → k * precision ≤ n
at_least n k h e =
    let few : precision ≤ n / k = ground (arith, e) in
    omega (arith, div-add-mod n k, mul-le-mul_left k few)

spacing-positive : (fuel n k : ℕ) → 0 < k → 0 < spacing fuel n k
unfolding spacing
spacing-positive zero n k h = h
spacing-positive (suc fuel) n k h = ground (arith, h, spacing-positive fuel n (k + k) (omega arith))

spacing_small :
    (fuel n k : ℕ) → 0 < k → (spacing fuel n k ≡ k) ⊎ (spacing fuel n k * half_precision ≤ n)
unfolding spacing
spacing_small zero n k h = inl refl
spacing_small (suc fuel) n k h = elim (Bool-cases (ltb (n / k) precision)) [
  | inl e ↦ inl (ground (arith, e))
  | inr e ↦ inr (ground (arith, e, at_least n k h e, spacing_small fuel n (k + k) (omega arith)))
]

-- The guess after all the fuel.
doubled : ℕ → ℕ → ℕ
doubled zero k = k
doubled (suc fuel) k = doubled fuel (k + k)

few_bits : (n k : ℕ) → 0 < k → n < k * precision → n / k < precision
few_bits n k h l = elim (Bool-cases (ltb (n / k) precision)) [
  | inl e ↦ ground (arith, e)
  | inr e ↦ absurd (omega (arith, l, at_least n k h e))
]

spacing_fits :
    (fuel n k : ℕ) → 0 < k → n < doubled fuel k * precision → n / spacing fuel n k < precision
unfolding spacing doubled
spacing_fits zero n k h l = few_bits n k h l
spacing_fits (suc fuel) n k h l = elim (Bool-cases (ltb (n / k) precision)) [
  | inl e ↦ ground (arith, e)
  | inr e ↦ ground (arith, e, spacing_fits fuel n (k + k) (omega arith) l)
]

-- The fuel is enough for a number of at most 106 bits: its double has at most 53.
pub enough_fuel : (n : ℕ) → n < precision * precision → n / spacing 53 n 1 < precision
unfolding doubled
enough_fuel n l = spacing_fits 53 n 1 (omega arith) l

-- A rounding is off by at most half the spacing.
abbrev Near : ℕ → ℕ → ℕ → Type 0
Near n k x = (2 * (x * k) ≤ 2 * n + k) × (2 * n ≤ 2 * (x * k) + k)

below_Near : (n k q r : ℕ) → k * q + r ≡ n → r + r ≤ k → Near n k q
below_Near n k q r e l = (omega (arith, mul_comm k q), omega (arith, mul_comm k q))

above_Near : (n k q r : ℕ) → k * q + r ≡ n → r < k → k ≤ r + r → Near n k (q + 1)
above_Near n k q r e l u = (grind arith, grind arith)

tie_Near : (n k q r b : ℕ) → k * q + r ≡ n → r < k → r + r ≡ k → b < 2 → Near n k (q + b)
tie_Near n k q r b e l u c = elim (Bool-cases (b == 0)) [
  | inl z ↦
      let even : q + b ≡ q = ground (arith, z) in
      subst (Near n k) (sym even) (below_Near n k q r e (omega (arith, u)))
  | inr z ↦
      let odd : q + b ≡ q + 1 = ground (arith, z, c) in
      subst (Near n k) (sym odd) (above_Near n k q r e l (omega (arith, u)))
]

nearest :
    (n k q r : ℕ)
    → k * q + r ≡ n
    → r < k
    → Near n k (if ltb (r + r) k then q else if ltb k (r + r) then q + 1 else q + q % 2)
nearest n k q r e l =
    if_cases (Near n k) (ltb (r + r) k) _ _ (λ x. below_Near n k q r e (ground (arith, x)))
      (λ x.
        if_cases (Near n k) (ltb k (r + r)) _ _ (λ y. above_Near n k q r e l (ground (arith, y)))
          (λ y. tie_Near n k q r (q % 2) e l (ground (arith, x, y)) (mod-lt q (omega arith))))

round_even-Near : (n k : ℕ) → 0 < k → Near n k (round_even n k)
round_even-Near n k h = nearest n k (n / k) (n % k) (div-add-mod n k) (mod-lt n h)

Near-exact : (n x k : ℕ) → k ≡ 1 → Near n k x → x * k ≡ n
Near-exact n x k e near = omega (arith, e, near.0, near.1)

round_double_near :
    (n : ℕ)
    → (2 * half_precision * round_double n ≤ 2 * half_precision * n + n)
      × (2 * half_precision * n ≤ 2 * half_precision * round_double n + n)
unfolding round_double
round_double_near n =
    let k = spacing 53 n 1 in
    let near = round_even-Near n k (spacing-positive 53 n 1 (omega arith)) in
    elim (spacing_small 53 n 1 (omega arith)) [
      | inl e ↦
          let exact = Near-exact n (round_even n k) k e near in
          (omega (arith, exact), omega (arith, exact))
      | inr e ↦ (omega (arith, near.0, e), omega (arith, near.1, e))
    ]

-- For a total below 2 ^ 52 tokens, the two shares make up no more than the total, and fall short of it
-- by at most two tokens.
pub split_bounds :
    (n : ℕ)
    → n < half_precision
    → let s = calculate_yield_split n in
      (s.finder_share + s.refinery_share ≤ n) × (n ≤ s.finder_share + s.refinery_share + 2)
unfolding calculate_yield_split
split_bounds n h =
    let a = round_double (n * 6_305_039_478_318_694) in
    let b = round_double (n * 5_404_319_552_844_595) in
    let near_a = round_double_near (n * 6_305_039_478_318_694) in
    let near_b = round_double_near (n * 5_404_319_552_844_595) in
    let da = div-add-mod a precision in
    let db = div-add-mod b (precision + precision) in
    (
      omega (arith, h, near_a.0, near_b.0, da, db),
      omega (arith, h, near_a.1, near_b.1, da, db, mod-lt a (pos_precision), mod-lt b pos_double),
    )
