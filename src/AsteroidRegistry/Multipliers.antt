-- ===== src/AsteroidRegistry/Multipliers.antt =====
-- The bounds of an asteroid's multipliers over any history of the registry.
use astroid_club.Prelude.{nat_eq, ◌*◌, ◌≤◌}
use astroid_club.Prelude.Fraction.{Fraction}

-- A fraction between 4/5 and 11/10.
abbrev Near : Fraction → Type 0
Near f = (1 ≤ f.den) × (4 * f.den ≤ 5 * f.num) × (10 * f.num ≤ 11 * f.den)
