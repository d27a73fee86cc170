-- ===== src/EmissionGovernor/Issued.antt =====
-- The daily cap against the history of calls.
use astroid_club.Prelude.{
  Bool, Bool-cases, List, Option, [], arith, if◌then◌else◌, inl, inr, ltb, nat_eq, refl, sum_by,
  sum_by-append, ℕ, ◌+◌, ◌==◌, ◌∷◌, ◌≡◌, ◌≤◌,
}
use astroid_club.Prelude.Int.{ℤ, pos, negsuc, Number}
use astroid_club.EmissionGovernor.{
  new_governor, Issue, Governor, day_ms, pushed, prune, record_issue, daily_scale, scale,
  get_status,
}
use astroid_club.EmissionGovernor.Window.{
  live, Recent, Recent-later, Recent-prune, Recent-pushed, live-prune, is_expired, sum-prune,
}

-- A call that changes the state, with the clock at that moment.
pub data Event : Type 0 where
  issues : ℕ → ℤ → Event
  asks reports : ℕ → Number → ℕ → Event

abbrev pub time_of : Event → ℕ
time_of (issues now n) = now
time_of (asks now d o) = now
time_of (reports now d o) = now

unfoldable pub step : Event → Governor → Governor
step (issues now n) g = record_issue now n g
step (asks now d o) g = (scale now d o g).0
step (reports now d o) g = (get_status now d o g).0

-- The governor after a history (newest first).
unfoldable pub after : Governor → List Event → Governor
after g [] = g
after g (e ∷ older) = step e (after g older)

-- No call of the history is later than an instant, or than the call after it.
unfoldable pub Ordered : ℕ → List Event → Type 0
Ordered now [] = Unit
Ordered now (e ∷ older) = (time_of e ≤ now) × Ordered (time_of e) older

abbrev pub issued_by : ℕ → Event → ℕ
issued_by now (issues at (pos n)) = if ltb (at + day_ms) now then 0 else n
issued_by now (issues at (negsuc n)) = 0
issued_by now (asks at d o) = 0
issued_by now (reports at d o) = 0

-- What a history issues in the day before an instant.
pub issued : ℕ → List Event → ℕ
issued now = sum_by (issued_by now)

record_issue-Recent :
    (now : ℕ) (n : ℤ) (g : Governor) → Recent now g → Recent now (record_issue now n g)
unfolding record_issue
record_issue-Recent now (negsuc n) g r = r
record_issue-Recent now (pos n) g r = elim (Bool-cases (n == 0)) [
  | inl z ↦ rw (record_issue, z) r
  | inr nz ↦ rw (record_issue, nz) (Recent-prune now (pushed now n g) (Recent-pushed now n g r))
]

live-pushed :
    (now later n : ℕ) (g : Governor)
    → live later (pushed now n g).window
      ≡ live later g.window + issued_by later (issues now (pos n))
unfolding pushed
live-pushed now later n g =
    let e : Issue = record { at = now; amount = n } in
    ground
      (arith, sum_by-append (λ x. if is_expired later x then 0 else x.amount) g.window (e ∷ []))

live-record_issue :
    (now later : ℕ) (n : ℤ) (g : Governor)
    → now ≤ later
    → live later (record_issue now n g).window
      ≡ live later g.window + issued_by later (issues now n)
unfolding record_issue
live-record_issue now later (negsuc n) g h = omega arith
live-record_issue now later (pos n) g h =
    ground (arith, h, live-pushed now later n g, live-prune now later (pushed now n g) h)

-- `scale` changes the state by a prune, where there is a cap.
scale-state :
    (now : ℕ) (d : Number) (o : ℕ) (g : Governor)
    → (scale now d o g).0 ≡ (if g.daily_cap == 0 then g else prune now g)
unfolding scale daily_scale
scale-state now d o g = ground arith

scale-Recent :
    (now : ℕ) (d : Number) (o : ℕ) (g : Governor) → Recent now g → Recent now (scale now d o g).0
scale-Recent now d o g r = elim (Bool-cases (g.daily_cap == 0)) [
  | inl z ↦ rw (scale-state now d o g, z) r
  | inr nz ↦ rw (scale-state now d o g, nz) (Recent-prune now g r)
]

live-scale :
    (now later : ℕ) (d : Number) (o : ℕ) (g : Governor)
    → now ≤ later
    → live later (scale now d o g).0.window ≡ live later g.window
live-scale now later d o g h = ground (arith, h, scale-state now d o g, live-prune now later g h)

step-Recent : (e : Event) (g : Governor) → Recent (time_of e) g → Recent (time_of e) (step e g)
unfolding step get_status
step-Recent (issues now n) g r = record_issue-Recent now n g r
step-Recent (asks now d o) g r = scale-Recent now d o g r
step-Recent (reports now d o) g r = scale-Recent now d o (prune now g) (Recent-prune now g r)

live-step :
    (e : Event) (later : ℕ) (g : Governor)
    → time_of e ≤ later
    → live later (step e g).window ≡ live later g.window + issued_by later e
unfolding step get_status
live-step (issues now n) later g h = live-record_issue now later n g h
live-step (asks now d o) later g h = omega (arith, live-scale now later d o g h)
live-step (reports now d o) later g h =
    omega (arith, live-scale now later d o (prune now g) h, live-prune now later g h)

after-Recent :
    (now : ℕ) (g : Governor) (es : List Event)
    → Recent 0 g
    → Ordered now es
    → Recent now (after g es)
unfolding after Ordered
after-Recent now g [] r h = Recent-later 0 now g (omega arith) r
after-Recent now g (e ∷ es) r h =
    Recent-later (time_of e) now (step e (after g es)) h.0
      (step-Recent e (after g es) (after-Recent (time_of e) g es r h.1))

live-after :
    (now later : ℕ) (g : Governor) (es : List Event)
    → Ordered now es
    → now ≤ later
    → live later (after g es).window ≡ live later g.window + issued later es
unfolding after Ordered issued
live-after now later g [] h l = omega arith
live-after now later g (e ∷ es) h l = omega (
  arith,
  live-step e later (after g es) (omega (arith, h.0, l)),
  live-after (time_of e) later g es h.1 (omega (arith, h.0, l)),
)

start-Recent :
    (b : ℤ) (dynamic : Bool) (t : Option (ℤ × ℕ)) (c : Option ℤ)
    → Recent 0 (new_governor b dynamic t c)
unfolding new_governor
start-Recent b dynamic t c = record { sum = refl; order = tt; past = tt }

live-start :
    (now : ℕ) (b : ℤ) (dynamic : Bool) (t : Option (ℤ × ℕ)) (c : Option ℤ)
    → live now (new_governor b dynamic t c).window ≡ 0
unfolding new_governor
live-start now b dynamic t c = refl

pub sum-after :
    (now : ℕ) (b : ℤ) (dynamic : Bool) (t : Option (ℤ × ℕ)) (c : Option ℤ) (es : List Event)
    → Ordered now es
    → (prune now (after (new_governor b dynamic t c) es)).window_sum ≡ issued now es
sum-after now b dynamic t c es h =
    let g = new_governor b dynamic t c in
    omega (
      arith,
      sum-prune now (after g es) (after-Recent now g es (start-Recent b dynamic t c) h),
      live-after now now g es h (omega arith),
      live-start now b dynamic t c,
    )

-- A governor that was built and then called in the order of its clock reports, as what was issued in
-- the last day, exactly what the calls of the last day recorded.
pub daily_issued_exact :
    (b : ℤ) (dynamic : Bool) (t : Option (ℤ × ℕ)) (c : Option ℤ) (es : List Event) (now o : ℕ)
    (d : Number)
    → Ordered now es
    → (get_status now d o (after (new_governor b dynamic t c) es)).1.daily_issued ≡ issued now es
unfolding get_status
daily_issued_exact b dynamic t c es now o d h =
    let g = after (new_governor b dynamic t c) es in
    let r = after-Recent now (new_governor b dynamic t c) es (start-Recent b dynamic t c) h in
    ground (
      arith,
      scale-state now d o (prune now g),
      sum-after now b dynamic t c es h,
      sum-prune now g r,
      sum-prune now (prune now g) (Recent-prune now g r),
      live-prune now now g (omega arith),
    )
