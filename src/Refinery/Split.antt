-- ===== src/Refinery/Split.antt =====
-- `calculateYieldSplit`: the floor of a product with 0.7 and with 0.3, which are doubles, and so is the
-- product. A double is a whole number of at most 53 bits times a power of two.
use astroid_club.Prelude.{if◌then◌else◌, ltb, nat_eq, suc, zero, ℕ, ◌%◌, ◌*◌, ◌+◌, ◌/◌}

-- 2 ^ 53
abbrev pub precision : ℕ
precision = 9_007_199_254_740_992

-- The spacing of the doubles at a whole number, from a first guess on.
unfoldable pub spacing : ℕ → ℕ → ℕ → ℕ
spacing zero n k = k
spacing (suc fuel) n k =
    let rest = spacing fuel n (k + k) in if ltb (n / k) precision then k else rest

-- A quotient rounded to the nearest whole number, and to the even one of two.
abbrev pub round_even : ℕ → ℕ → ℕ
round_even n k =
    let q = n / k in
    let r = n % k in if ltb (r + r) k then q else if ltb k (r + r) then q + 1 else q + q % 2

-- The double next to a whole number of fewer than 106 bits.
unfoldable pub round_double : ℕ → ℕ
unfolding spacing
round_double n = let k = spacing 53 n 1 in round_even n k * k

pub record YieldSplit : Type 0 where
  pub finder_share : ℕ
  pub refinery_share : ℕ

-- The doubles 0.7 and 0.3 are 6_305_039_478_318_694 / 2 ^ 53 and 5_404_319_552_844_595 / 2 ^ 54.
unfoldable pub calculate_yield_split : ℕ → YieldSplit
unfolding round_double
calculate_yield_split n = record {
  finder_share = round_double (n * 6_305_039_478_318_694) / precision;
  refinery_share = round_double (n * 5_404_319_552_844_595) / (precision + precision);
}
