-- ===== src/EmissionGovernor/Window.antt =====
-- The rolling window of the governor: what `prune` drops and what it keeps.
use astroid_club.Prelude.{
  All, Bool, Bool-cases, List, [], arith, if◌then◌else◌, inl, inr, ltb, nat_eq, refl, sum_by,
  sum_by-append, ℕ, ◌++◌, ◌+◌, ◌-◌, ◌∷◌, ◌≡◌, ◌≤◌,
}
use astroid_club.EmissionGovernor.{Issue, Governor, day_ms, prune_loop, prune, pushed}

abbrev pub amount_of : Issue → ℕ
amount_of e = e.amount

-- An entry older than a day has left the window.
abbrev pub is_expired : ℕ → Issue → Bool
is_expired now e = ltb (e.at + day_ms) now

-- What the entries of the last day add up to.
abbrev pub live : ℕ → List Issue → ℕ
live now = sum_by (λ e. if is_expired now e then 0 else e.amount)

-- Oldest first.
abbrev pub Ascending : List Issue → Type 0
Ascending [] = Unit
Ascending (e ∷ es) = All (λ x. e.at ≤ x.at) es × Ascending es

abbrev pub By : ℕ → List Issue → Type 0
By now = All (λ e. e.at ≤ now)

prune_loop-sum :
    (now : ℕ) (es : List Issue)
    → (prune_loop now es (sum_by amount_of es)).1
      ≡ sum_by amount_of (prune_loop now es (sum_by amount_of es)).0
unfolding prune_loop
prune_loop-sum now [] = refl
prune_loop-sum now (e ∷ es) =
    let s : e.amount + sum_by amount_of es - e.amount ≡ sum_by amount_of es = omega arith in
    rw s (ground (arith, prune_loop-sum now es))

live-prune_loop :
    (now later : ℕ) (es : List Issue) (s : ℕ)
    → now ≤ later
    → live later (prune_loop now es s).0 ≡ live later es
unfolding prune_loop
live-prune_loop now later [] s h = refl
live-prune_loop now later (e ∷ es) s h =
    ground (arith, h, live-prune_loop now later es (s - e.amount) h)

All-prune_loop :
    (P : Issue → Type 0) (now : ℕ) (es : List Issue) (s : ℕ)
    → All P es
    → All P (prune_loop now es s).0
unfolding prune_loop
All-prune_loop P now [] s h = tt
All-prune_loop P now (e ∷ es) s h = elim (Bool-cases (is_expired now e)) [
  | inl old ↦ rw (prune_loop, old) (All-prune_loop P now es (s - e.amount) h.1)
  | inr new ↦ rw (prune_loop, new) h
]

Ascending-prune_loop :
    (now : ℕ) (es : List Issue) (s : ℕ) → Ascending es → Ascending (prune_loop now es s).0
unfolding prune_loop
Ascending-prune_loop now [] s h = tt
Ascending-prune_loop now (e ∷ es) s h = elim (Bool-cases (is_expired now e)) [
  | inl old ↦ rw (prune_loop, old) (Ascending-prune_loop now es (s - e.amount) h.1)
  | inr new ↦ rw (prune_loop, new) h
]

live_eq_sum :
    (now t : ℕ) (es : List Issue)
    → now ≤ t + day_ms
    → All (λ x. t ≤ x.at) es
    → live now es ≡ sum_by amount_of es
live_eq_sum now t [] h a = refl
live_eq_sum now t (e ∷ es) h a = let k = a.0 in ground (arith, h, k, live_eq_sum now t es h a.1)

sum-prune_loop :
    (now : ℕ) (es : List Issue) (s : ℕ)
    → Ascending es
    → sum_by amount_of (prune_loop now es s).0 ≡ live now es
unfolding prune_loop
sum-prune_loop now [] s a = refl
sum-prune_loop now (e ∷ es) s a = elim (Bool-cases (is_expired now e)) [
  | inl old ↦ ground (arith, old, sum-prune_loop now es (s - e.amount) a.1)
  | inr new ↦
      let h : now ≤ e.at + day_ms = ground (arith, new) in
      ground (arith, new, live_eq_sum now e.at es h a.0)
]

All-push :
    (P : Issue → Type 0) (es : List Issue) (e : Issue) → All P es → P e → All P (es ++ (e ∷ []))
All-push P [] e h p = (p, tt)
All-push P (x ∷ es) e h p = (h.0, All-push P es e h.1 p)

Ascending-push :
    (es : List Issue) (e : Issue) → Ascending es → By e.at es → Ascending (es ++ (e ∷ []))
Ascending-push [] e a b = (tt, tt)
Ascending-push (x ∷ es) e a b =
    (All-push (λ y. x.at ≤ y.at) es e a.0 b.0, Ascending-push es e a.1 b.1)

By-later : (now later : ℕ) (es : List Issue) → now ≤ later → By now es → By later es
By-later now later [] h b = tt
By-later now later (e ∷ es) h b = (omega (arith, h, b.0), By-later now later es h b.1)

-- At an instant, the sum is the window's, and the window is in order and not in the future.
pub record Recent (now : ℕ) (g : Governor) : Type 0 where
  pub sum : g.window_sum ≡ sum_by amount_of g.window
  pub order : Ascending g.window
  pub past : By now g.window

pub Recent-later : (now later : ℕ) (g : Governor) → now ≤ later → Recent now g → Recent later g
Recent-later now later g h r = record {
  sum = r.sum;
  order = r.order;
  past = By-later now later g.window h r.past;
}

pub Recent-prune : (now : ℕ) (g : Governor) → Recent now g → Recent now (prune now g)
unfolding prune
Recent-prune now g r = record {
  sum = rw r.sum (prune_loop-sum now g.window);
  order = Ascending-prune_loop now g.window g.window_sum r.order;
  past = All-prune_loop (λ e. e.at ≤ now) now g.window g.window_sum r.past;
}

pub live-prune :
    (now later : ℕ) (g : Governor)
    → now ≤ later
    → live later (prune now g).window ≡ live later g.window
unfolding prune
live-prune now later g h = live-prune_loop now later g.window g.window_sum h

pruned_sum :
    (now : ℕ) (g : Governor)
    → Recent now g
    → sum_by amount_of (prune now g).window ≡ live now g.window
unfolding prune
pruned_sum now g r = sum-prune_loop now g.window g.window_sum r.order

-- After a prune, the sum is what was issued in the last day.
pub sum-prune :
    (now : ℕ) (g : Governor) → Recent now g → (prune now g).window_sum ≡ live now g.window
sum-prune now g r = omega (arith, (Recent-prune now g r).sum, pruned_sum now g r)

pub Recent-pushed : (now n : ℕ) (g : Governor) → Recent now g → Recent now (pushed now n g)
unfolding pushed
Recent-pushed now n g r =
    let e : Issue = record { at = now; amount = n } in
    record {
      sum = ground (arith, r.sum, sum_by-append amount_of g.window (e ∷ []));
      order = Ascending-push g.window e r.order r.past;
      past = All-push (λ x. x.at ≤ now) g.window e r.past (omega arith);
    }
