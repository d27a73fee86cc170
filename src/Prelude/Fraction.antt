-- ===== src/Prelude/Fraction.antt =====
-- Exact fractions, for the code's floating-point factors.
use Prim.Native.Nat.{ℕ, ◌*◌, ◌+◌}

pub record Fraction : Type 0 where
  pub num : ℕ
  pub den : ℕ

abbrev pub one : Fraction
one = record { num = 1; den = 1 }

abbrev pub times : Fraction → Fraction → Fraction
times a b = record { num = a.num * b.num; den = a.den * b.den }

abbrev pub percent : ℕ → Fraction
percent n = record { num = n; den = 100 }

abbrev pub plus : Fraction → Fraction → Fraction
plus a b = record { num = a.num * b.den + b.num * a.den; den = a.den * b.den }
