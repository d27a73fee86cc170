-- ===== src/EmissionGovernor.antt =====
-- server/game/emission-governor.ts: the throttle of mining rewards. Credits, budgets and instants
-- are whole numbers; a scale is a fraction; the clock and what `getBudget` returns are arguments.
pub mod Window
pub mod Issued
pub mod Scale
mod Tests
use astroid_club.Prelude.{
  All, Bool, Bool-cases, Eq, List, Option, Option-cases, [], ap, arith, false, get_or, holds,
  if_keeps, if◌then◌else◌, inl, inr, is_some, leb, length, length-append, ltb, map, max, min,
  nat_beq_iff, nat_eq, none, not, refl, some, subst, suc, sum_by, sum_by-append, sym, true, zero, ℕ,
  ◌%◌, ◌&&◌, ◌*◌, ◌++◌, ◌+◌, ◌-◌, ◌/◌, ◌<◌, ◌==◌, ◌||◌, ◌↔◌, ◌∙◌, ◌∷◌, ◌≡◌, ◌≢◌, ◌≤◌, ◌⊎◌,
}
use astroid_club.Prelude.Fraction.{Fraction, one}
use astroid_club.Prelude.Int.{ℤ, pos, negsuc, pos_part, Number, finite, not_finite}

abbrev pub day_ms : ℕ
day_ms = 24 * 60 * 60 * 1000

abbrev pub zero_scale : Fraction
zero_scale = record { num = 0; den = 1 }

-- `Math.min`, for positive denominators.
abbrev pub min_fraction : Fraction → Fraction → Fraction
min_fraction a b = if leb (a.num * b.den) (b.num * a.den) then a else b

-- An entry of the rolling window.
pub record Issue : Type 0 where
  pub at : ℕ
  pub amount : ℕ

pub record Governor : Type 0 where
  pub static_budget : ℕ
  pub has_dynamic : Bool
  pub taper : Fraction
  pub daily_cap : ℕ
  pub window : List Issue
  pub window_sum : ℕ

-- `Math.min(1, Math.max(0.0001, tf))` of the fraction n / (d + 1).
pub clamp_taper : ℤ → ℕ → Fraction
clamp_taper n d =
    if ltb (pos_part n * 10000) (suc d)
    then record { num = 1; den = 10000 }
    else if leb (suc d) (pos_part n)
    then one
    else record { num = pos_part n; den = suc d }

-- The constructor; a taper that is left out is a quarter, a cap that is left out 0.
unfoldable pub new_governor : ℤ → Bool → Option (ℤ × ℕ) → Option ℤ → Governor
unfolding clamp_taper
new_governor budget dynamic taper cap = record {
  static_budget = pos_part budget;
  has_dynamic = dynamic;
  taper = elim taper [ none ↦ clamp_taper (pos 1) 3 | some (n, d) ↦ clamp_taper n d ];
  daily_cap = elim cap [ none ↦ 0 | some c ↦ pos_part c ];
  window = [];
  window_sum = 0;
}

-- `Number.isFinite(dynamic) && dynamic > 0`
abbrev pub usable : Number → ℕ → ℕ
usable (finite (pos n)) static = if ltb 0 n then n else static
usable (finite (negsuc n)) static = static
usable not_finite static = static

-- The effective budget, from what `getBudget` returns where it is wired.
pub budget : Number → Governor → ℕ
budget dynamic g = if g.has_dynamic then usable dynamic g.static_budget else g.static_budget

pub enabled : Governor → Bool
enabled g = g.has_dynamic || (ltb 0 g.static_budget || ltb 0 g.daily_cap)

-- The loop of `prune`: an entry is dropped where `t < now - DAY_MS`. No amount is negative, so that a
-- sum that stops at 0 at each step is the code's, which is raised to 0 at the end.
pub prune_loop : ℕ → List Issue → ℕ → List Issue × ℕ
prune_loop now [] sum = ([], sum)
prune_loop now (e ∷ es) sum =
    let rest = prune_loop now es (sum - e.amount) in
    if ltb (e.at + day_ms) now then rest else (e ∷ es, sum)

pub prune : ℕ → Governor → Governor
unfolding prune_loop
prune now g =
    let r = prune_loop now g.window g.window_sum in record g { window = r.0; window_sum = r.1 }

-- A new entry of the window.
pub pushed : ℕ → ℕ → Governor → Governor
pushed now n g = record g {
  window = g.window ++ (record { at = now; amount = n } ∷ []);
  window_sum = g.window_sum + n;
}

unfoldable pub record_issue : ℕ → ℤ → Governor → Governor
unfolding pushed prune
record_issue now (negsuc n) g = g
record_issue now (pos n) g = if n == 0 then g else prune now (pushed now n g)

-- `headroom >= band` and `headroom / band`, with band = budget * taper.
pub backing_scale : ℕ → Fraction → ℕ → Fraction
backing_scale b taper outstanding =
    if b == 0
    then one
    else if leb b outstanding
    then zero_scale
    else if leb (b * taper.num) ((b - outstanding) * taper.den)
    then one
    else record { num = (b - outstanding) * taper.den; den = b * taper.num }

pub daily_scale : ℕ → Governor → Governor × Fraction
unfolding prune
daily_scale now g =
    if g.daily_cap == 0
    then (g, one)
    else let g' = prune now g in (g', if leb g'.daily_cap g'.window_sum then zero_scale else one)

unfoldable pub scale : ℕ → Number → ℕ → Governor → Governor × Fraction
unfolding backing_scale daily_scale budget
scale now dynamic outstanding g =
    let (g', daily) = daily_scale now g in
    (g', min_fraction (backing_scale (budget dynamic g) g.taper outstanding) daily)

-- The floor of the exact product. The code rounds the quotient of the scale and the product to doubles
-- first, so that its floor can be one off: 62 for a yield of 90 at a scale of 0.7, which is 63 here.
unfoldable pub apply : ℕ → Number → ℕ → ℕ → Governor → Governor × ℕ
unfolding scale
apply now dynamic gross outstanding g =
    let (g', s) = scale now dynamic outstanding g in (g', gross * s.num / s.den)

-- `EmissionStatus`; a headroom of `none` is `Infinity`.
pub record Status : Type 0 where
  pub scale : Fraction
  pub outstanding : ℕ
  pub budget : ℕ
  pub headroom : Option ℕ
  pub daily_issued : ℕ
  pub daily_cap : ℕ

unfoldable pub get_status : ℕ → Number → ℕ → Governor → Governor × Status
unfolding scale prune budget
get_status now dynamic outstanding g =
    let pruned = prune now g in
    let b = budget dynamic g in
    let (g', s) = scale now dynamic outstanding pruned in
    (
      g',
      record {
        scale = s;
        outstanding = outstanding;
        budget = b;
        headroom = if ltb 0 b then some (b - outstanding) else none;
        daily_issued = g'.window_sum;
        daily_cap = g'.daily_cap;
      },
    )
