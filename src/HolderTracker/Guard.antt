-- ===== src/HolderTracker/Guard.antt =====
-- The flash-loan guard: exactly when a wallet is eligible, in terms of the history of calls,
-- and what the remaining hold that it is told is good for.
use astroid_club.Prelude.{
  Bool-cases, List, Option, [], arith, false, inl, inr, leb, nat_eq, none, refl, some, subst, sym,
  true, ℕ, ◌+◌, ◌<◌, ◌==◌, ◌↔◌, ◌∙◌, ◌∷◌, ◌≡◌, ◌≤◌, ◌⊎◌,
}
use astroid_club.Prelude.Int.{ℤ, pos, negsuc, ◌-ℤ◌, ◌≤ℤ◌, leb_ℤ, pos_part, neg_part}
use astroid_club.JsMap.{get}
use astroid_club.JsMap.Laws.{get-set, get-delete}
use astroid_club.HolderTracker.{
  clamp_start, Observation, Config, Tracker, observed, seed, clear, clear_all, decide,
  at_least_zero, below, observe, get_history,
}
use astroid_club.HolderTracker.Trace.{
  drops, Event, observes, seeds, clears, clears_all, fresh, apply, after, since_drop, sightings,
  held_from, record_of_history,
}

-- A wallet has held since `t` for as long as the configuration asks.
abbrev pub HeldLongEnough : Config → ℕ → Option ℤ → Type 0
HeldLongEnough c now none = ⊥
HeldLongEnough c now (some t) = pos c.min_hold ≤ℤ (pos now -ℤ t)

decide_iff :
    (c : Config) (now : ℕ) (h : Observation)
    → ((decide c now h).eligible ≡ true)
      ↔ (HeldLongEnough c now (some h.first_seen) ⊎ (c.min_consecutive ≤ h.consecutive))
unfolding decide
decide_iff c now h = ground arith

apply-config : (e : Event) (t : Tracker) → (apply e t).config ≡ t.config
unfolding apply observe seed clear clear_all
apply-config (observes now w b r) t = ground arith
apply-config (seeds now w start b) t = ground arith
apply-config (clears w) t = refl
apply-config clears_all t = refl

after-config : (c : Config) (es : List Event) → (after c es).config ≡ c
unfolding after fresh
after-config c [] = refl
after-config c (e ∷ es) = apply-config e (after c es) ∙ after-config c es

observe_above :
    (now w b r : ℕ) (t : Tracker)
    → leb r b ≡ true
    → let h = observed now b (get w t.history) in
      (get_history w (observe now w b r t).0 ≡ some h)
      × ((observe now w b r t).1 ≡ decide t.config now h)
unfolding observe get_history
observe_above now w b r t e =
    rw (e, observe) (ground (arith, get-set w w (observed now b (get w t.history)) t.history), refl)

observe_below :
    (now w b r : ℕ) (t : Tracker)
    → leb r b ≡ false
    → ((observe now w b r t).1.eligible ≡ false) × (b < r)
unfolding observe below
observe_below now w b r t e = ground arith

-- After any history, an observation finds the wallet eligible exactly when the balance meets the
-- threshold and either the wallet has been seen above the threshold often enough since the last
-- drop, this observation included, or the holding that the history shows began long enough ago.
pub eligible_iff :
    (c : Config) (es : List Event) (now w b r : ℕ)
    → let run = since_drop w (observes now w b r ∷ es) in
      ((observe now w b r (after c es)).1.eligible ≡ true)
      ↔ ((r ≤ b) × (HeldLongEnough c now (held_from w run) ⊎ (c.min_consecutive ≤ sightings w run)))
unfolding after apply
eligible_iff c es now w b r = elim (Bool-cases (leb r b)) [
  | inl e ↦
      (let h = observed now b (get w (after c es).history) in
        let (kept, decision) = observe_above now w b r (after c es) e in
        let (start, count) = record_of_history c w (observes now w b r ∷ es) in
        let start' : some h.first_seen ≡ held_from w (since_drop w (observes now w b r ∷ es)) =
          rw kept at start in
        let count' : h.consecutive ≡ sightings w (since_drop w (observes now w b r ∷ es)) =
          rw kept at count in
        let d = decide_iff c now h in
        rw (decision, after-config c es, ← start', ← count')
          (λ x. (ground arith, d.0 x), λ x. d.1 x.1))
  | inr e ↦
      (let (refused, short) = observe_below now w b r (after c es) e in
        (λ x. cc, λ x. absurd (omega arith)))
]

minus_le : (a b : ℕ) (r : ℤ) → pos a ≤ℤ pos b -ℤ r → a + pos_part r ≤ b + neg_part r
minus_le a b (pos n) h = ground arith
minus_le a b (negsuc n) h = ground arith

le_minus : (a b : ℕ) (r : ℤ) → a + pos_part r ≤ b + neg_part r → pos a ≤ℤ pos b -ℤ r
le_minus a b (pos n) h = ground arith
le_minus a b (negsuc n) h = ground arith

at_least_zero_lem :
    (a : ℕ) (z : ℤ)
    → let r = at_least_zero (pos a -ℤ z) in
      (a + neg_part z ≤ pos_part z + pos_part r) × (neg_part r ≡ 0)
at_least_zero_lem a (pos n) = ground arith
at_least_zero_lem a (negsuc n) = ground arith

held_parts :
    (now : ℕ) (f : ℤ)
    → let held = pos now -ℤ f in pos_part held + pos_part f ≡ now + neg_part f + neg_part held
held_parts now (pos n) = ground arith
held_parts now (negsuc n) = ground arith

-- The remaining hold covers what is missing.
decide_remaining :
    (c : Config) (now : ℕ) (h : Observation)
    → let r = (decide c now h).remaining_hold in
      ((c.min_consecutive ≤ h.consecutive)
        ⊎ (c.min_hold + pos_part h.first_seen ≤ now + neg_part h.first_seen + pos_part r))
      × (neg_part r ≡ 0)
unfolding decide
decide_remaining c now h =
    let held = pos now -ℤ h.first_seen in
    let z = at_least_zero_lem c.min_hold held in
    let p = held_parts now h.first_seen in
    elim (Bool-cases (leb c.min_consecutive h.consecutive)) [
      | inl e ↦ rw (e, decide) (inl (ground arith), ground arith)
      | inr e ↦ elim (Bool-cases (leb_ℤ (pos c.min_hold) held)) [
        | inl long ↦
            rw long (inr (omega (arith, minus_le c.min_hold now h.first_seen (ground arith))), refl)
        | inr short ↦ rw (short, e) (inr (omega (arith, z.0, p)), z.1)
      ]
    ]

decide_later :
    (c : Config) (now later b' : ℕ) (h k : Observation)
    → k.first_seen ≡ h.first_seen
    → h.consecutive ≤ k.consecutive
    → pos now ≤ℤ pos later -ℤ (decide c now h).remaining_hold
    → (decide c later (observed later b' (some k))).eligible ≡ true
decide_later c now later b' h k same more enough =
    let (covered, nonneg) = decide_remaining c now h in
    let later_by = minus_le now later (decide c now h).remaining_hold enough in
    (decide_iff c later (observed later b' (some k))).1 (elim covered [
      | inl seen ↦ inr (omega (arith, more))
      | inr hold ↦ inl (
          subst (λ x. HeldLongEnough c later (some x)) (sym same)
            (le_minus c.min_hold later h.first_seen (omega arith)))
    ])

-- No event of a history ends the holding of a wallet.
unfoldable pub NoDrop : ℕ → List Event → Type 0
NoDrop w [] = Unit
NoDrop w (e ∷ es) = (drops w e ≡ false) × NoDrop w es

-- The tracker after further calls (newest first).
unfoldable pub continued : Tracker → List Event → Tracker
continued t [] = t
continued t (e ∷ older) = apply e (continued t older)

-- What calls without a drop leave of a record: its opening, and no fewer sightings.
abbrev Continues : Observation → Option Observation → Type 0
Continues h o =
    (k : Observation) × (o ≡ some k)
    × (k.first_seen ≡ h.first_seen)
    × (h.consecutive ≤ k.consecutive)

observe-Continues :
    (w now v b r : ℕ) (h : Observation) (t : Tracker)
    → drops w (observes now v b r) ≡ false
    → Continues h (get w t.history)
    → Continues h (get w (observe now v b r t).0.history)
unfolding observe
observe-Continues w now v b r h t q (k, e, f, l) = elim (Bool-cases (v == w)) [
  | inl hit ↦ (
    observed now b (some k),
    ground (arith, q, hit, e, get-set w v (observed now b (get v t.history)) t.history),
    f,
    omega (arith, l),
  )
  | inr miss ↦ (
    k,
    ground (
      arith,
      miss,
      e,
      get-set w v (observed now b (get v t.history)) t.history,
      get-delete w v t.history,
    ),
    f,
    l,
  )
]

apply-Continues :
    (w : ℕ) (h : Observation) (e : Event) (t : Tracker)
    → drops w e ≡ false
    → Continues h (get w t.history)
    → Continues h (get w (apply e t).history)
unfolding apply seed clear clear_all
apply-Continues w h (observes now v b r) t q c = observe-Continues w now v b r h t q c
apply-Continues w h (seeds now v start b) t q (k, e, f, l) = (
  k,
  ground (
    arith,
    e,
    get-set w v (record { first_seen = clamp_start start now; last_balance = b; consecutive = 1 })
        t.history,
  ),
  f,
  l,
)
apply-Continues w h (clears v) t q (k, e, f, l) =
    (k, ground (arith, q, e, get-delete w v t.history), f, l)
apply-Continues w h clears_all t q c = absurd (ground (arith, q))

continued-Continues :
    (w : ℕ) (h : Observation) (es : List Event) (t : Tracker)
    → NoDrop w es
    → Continues h (get w t.history)
    → Continues h (get w (continued t es).history)
unfolding NoDrop continued
continued-Continues w h [] t q c = c
continued-Continues w h (e ∷ es) t q c =
    apply-Continues w h e (continued t es) q.0 (continued-Continues w h es t q.1 c)

continued-config : (t : Tracker) (es : List Event) → (continued t es).config ≡ t.config
unfolding continued
continued-config t [] = refl
continued-config t (e ∷ es) = apply-config e (continued t es) ∙ continued-config t es

-- A wallet that is seen above the threshold and then, after any calls of the tracker in between of
-- which none ends its holding (a sighting below a threshold, a clear), is seen above a threshold again
-- once the remaining hold that it was told the first time has passed, is eligible then.
pub remaining_hold_suffices :
    (t : Tracker) (now w b r : ℕ) (es : List Event) (later b' r' : ℕ)
    → r ≤ b
    → r' ≤ b'
    → NoDrop w es
    → let (t', d) = observe now w b r t in
      pos now ≤ℤ (pos later -ℤ d.remaining_hold)
      → (observe later w b' r' (continued t' es)).1.eligible ≡ true
unfolding get_history apply
remaining_hold_suffices t now w b r es later b' r' h h' calm enough =
    let t' = (observe now w b r t).0 in
    let first = observed now b (get w t.history) in
    let above = observe_above now w b r t (ground (arith, h)) in
    let again = observe_above later w b' r' (continued t' es) (ground (arith, h')) in
    let start : Continues first (get w t'.history) = (first, above.0, refl, omega arith) in
    let (k, kept, opened, more) = continued-Continues w first es t' calm start in
    let first_config : t'.config ≡ t.config = apply-config (observes now w b r) t in
    let same : (continued t' es).config ≡ t.config = continued-config t' es ∙ first_config in
    rw (again.1, same, kept)
      (decide_later t.config now later b' first k opened more (rw above.1 at enough))
