-- ===== src/EmissionGovernor/Scale.antt =====
-- What the governor lets through of a yield.
use astroid_club.Prelude.{
  Bool, List, Option, [], ap, arith, false, if◌then◌else◌, leb, ltb, nat_eq, none, refl, some, ℕ,
  ◌&&◌, ◌*◌, ◌+◌, ◌-◌, ◌/◌, ◌∙◌, ◌∷◌, ◌≡◌, ◌≤◌,
}
use astroid_club.Prelude.Int.{ℤ, pos, negsuc, Number}
use native.Mathlib.Nat.{div-le_of_le-mul, mul-le-mul_right, le_of_mul-le-mul_right}
use astroid_club.Prelude.Fraction.{Fraction}
use astroid_club.EmissionGovernor.{
  Governor, prune, prune_loop, record_issue, backing_scale, daily_scale, budget, scale, apply,
  get_status, new_governor, clamp_taper, pushed,
}
use astroid_club.EmissionGovernor.Issued.{
  Event, issues, asks, reports, step, after, Ordered, issued, sum-after,
}

-- A scale is a fraction of at most 1.
abbrev IsScale : Fraction → Type 0
IsScale s = (s.num ≤ s.den) × (1 ≤ s.den)

backing_scale-IsScale : (b : ℕ) (t : Fraction) (o : ℕ) → IsScale (backing_scale b t o)
unfolding backing_scale
backing_scale-IsScale b t o = ground arith

-- Whether the daily cap stops everything.
abbrev pub is_capped : ℕ → Governor → Bool
is_capped now g = ltb 0 g.daily_cap && leb g.daily_cap (prune now g).window_sum

prune-cap : (now : ℕ) (g : Governor) → (prune now g).daily_cap ≡ g.daily_cap
unfolding prune
prune-cap now g = refl

pub apply-capped :
    (now : ℕ) (d : Number) (gross o : ℕ) (g : Governor)
    → let s = backing_scale (budget d g) g.taper o in
      (apply now d gross o g).1 ≡ (if is_capped now g then 0 else gross * s.num / s.den)
unfolding apply scale daily_scale
apply-capped now d gross o g =
    let s = backing_scale (budget d g) g.taper o in
    let k = backing_scale-IsScale (budget d g) g.taper o in ground (arith, k, prune-cap now g)

-- Two governors with the same configuration.
record Alike (g h : Governor) : Type 0 where
  taper : g.taper ≡ h.taper
  cap : g.daily_cap ≡ h.daily_cap
  static : g.static_budget ≡ h.static_budget
  dynamic : g.has_dynamic ≡ h.has_dynamic

prune-Alike : (now : ℕ) (g : Governor) → Alike (prune now g) g
unfolding prune
prune-Alike now g = record { taper = refl; cap = refl; static = refl; dynamic = refl }

Alike-trans : (g h k : Governor) → Alike g h → Alike h k → Alike g k
Alike-trans g h k a b = record {
  taper = a.taper ∙ b.taper;
  cap = a.cap ∙ b.cap;
  static = a.static ∙ b.static;
  dynamic = a.dynamic ∙ b.dynamic;
}

scale-Alike : (now : ℕ) (d : Number) (o : ℕ) (g : Governor) → Alike (scale now d o g).0 g
unfolding scale daily_scale
scale-Alike now d o g =
    let a = prune-Alike now g in
    record {
      taper = ground (arith, a.taper);
      cap = ground (arith, a.cap);
      static = ground (arith, a.static);
      dynamic = ground (arith, a.dynamic);
    }

record_issue-Alike : (now : ℕ) (n : ℤ) (g : Governor) → Alike (record_issue now n g) g
unfolding record_issue pushed
record_issue-Alike now (negsuc n) g = record {
  taper = refl;
  cap = refl;
  static = refl;
  dynamic = refl;
}
record_issue-Alike now (pos n) g =
    let a = prune-Alike now (pushed now n g) in
    record {
      taper = ground (arith, a.taper);
      cap = ground (arith, a.cap);
      static = ground (arith, a.static);
      dynamic = ground (arith, a.dynamic);
    }

after-Alike : (g : Governor) (es : List Event) → Alike (after g es) g
unfolding after step get_status
after-Alike g [] = record { taper = refl; cap = refl; static = refl; dynamic = refl }
after-Alike g (issues now n ∷ es) =
    Alike-trans _ (after g es) g (record_issue-Alike now n (after g es)) (after-Alike g es)
after-Alike g (asks now d o ∷ es) =
    Alike-trans _ (after g es) g (scale-Alike now d o (after g es)) (after-Alike g es)
after-Alike g (reports now d o ∷ es) =
    let h = after g es in
    Alike-trans _ (prune now h) g (scale-Alike now d o (prune now h))
      (Alike-trans (prune now h) h g (prune-Alike now h) (after-Alike g es))

taper_den :
    (b : ℤ) (dynamic : Bool) (t : Option (ℤ × ℕ)) (c : Option ℤ)
    → 1 ≤ (new_governor b dynamic t c).taper.den
unfolding new_governor clamp_taper
taper_den b dynamic none c = ground arith
taper_den b dynamic (some (n, d)) c = ground arith

-- A part of a yield no larger than the band keeps within the headroom.
within_headroom :
    (b : ℕ) (t : Fraction) (o gross : ℕ)
    → 1 ≤ t.den
    → o ≤ b
    → gross * t.den ≤ b * t.num
    → 1 ≤ b
    → let s = backing_scale b t o in o + gross * s.num / s.den ≤ b
unfolding backing_scale
within_headroom b t o gross p i band q =
    let head = b - o in
    let full : b * t.num ≤ head * t.den → gross ≤ head =
      λ f. le_of_mul-le-mul_right (omega (arith, f, band)) p in
    let shrink : gross * (head * t.den) / (b * t.num) ≤ head =
      div-le_of_le-mul (b * t.num) (omega (arith, mul-le-mul_right head band)) in
    ground (arith, i, q, full, shrink)

same_budget : (d : Number) (g h : Governor) → Alike g h → budget d g ≡ budget d h
unfolding budget
same_budget d g h a = ground (arith, a.static, a.dynamic)

-- Where the outstanding claims are within an effective budget of at least 1 and the gross yield is at
-- most the band of the taper, what the governor lets through of it after any calls keeps the claims
-- within the budget.
pub backing_holds :
    (b : ℤ) (dynamic : Bool) (t : Option (ℤ × ℕ)) (c : Option ℤ) (es : List Event) (now gross o : ℕ)
    (d : Number)
    → let g = new_governor b dynamic t c in
      1 ≤ budget d g
      → o ≤ budget d g
      → gross * g.taper.den ≤ budget d g * g.taper.num
      → o + (apply now d gross o (after g es)).1 ≤ budget d g
backing_holds b dynamic t c es now gross o d q i band =
    let g = new_governor b dynamic t c in
    let a = after-Alike g es in
    let k = apply-capped now d gross o (after g es) in
    let w = within_headroom (budget d g) g.taper o gross (taper_den b dynamic t c) i band q in
    ground (arith, k, w, i, a.taper, same_budget d (after g es) g a)

new_uncapped :
    (now : ℕ) (b : ℤ) (dynamic : Bool) (t : Option (ℤ × ℕ)) (c : Option ℤ)
    → is_capped now (new_governor b dynamic t c) ≡ false
unfolding prune prune_loop new_governor
new_uncapped now b dynamic t c = ground arith

-- A new governor lets through what the scale of the backing does.
apply-new :
    (b : ℤ) (dynamic : Bool) (t : Option (ℤ × ℕ)) (c : Option ℤ) (now gross o : ℕ) (d : Number)
    → let g = new_governor b dynamic t c in
      let s = backing_scale (budget d g) g.taper o in
      (apply now d gross o g).1 ≡ gross * s.num / s.den
apply-new b dynamic t c now gross o d =
    let g = new_governor b dynamic t c in
    let s = backing_scale (budget d g) g.taper o in
    apply-capped now d gross o g
    ∙ ap (λ (x : Bool). if x then 0 else gross * s.num / s.den) (new_uncapped now b dynamic t c)

-- After any calls in the order of the clock, the governor lets nothing of a yield through where there
-- is a daily cap and the calls of the last day have issued it, and else as much of it as a new governor
-- of the same configuration does: nothing else of the history counts.
pub apply-after :
    (b : ℤ) (dynamic : Bool) (t : Option (ℤ × ℕ)) (c : Option ℤ) (es : List Event) (now gross o : ℕ)
    (d : Number)
    → Ordered now es
    → let g = new_governor b dynamic t c in
      (apply now d gross o (after g es)).1 ≡ (
        if ltb 0 g.daily_cap && leb g.daily_cap (issued now es)
        then 0
        else (apply now d gross o g).1)
apply-after b dynamic t c es now gross o d h =
    let g = new_governor b dynamic t c in
    let a = after-Alike g es in
    let k = apply-capped now d gross o (after g es) in
    let new = apply-new b dynamic t c now gross o d in
    ground (
      arith,
      k,
      new,
      a.cap,
      a.taper,
      same_budget d (after g es) g a,
      sum-after now b dynamic t c es h,
    )
