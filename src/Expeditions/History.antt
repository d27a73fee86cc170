-- ===== src/Expeditions/History.antt =====
-- The expeditions over any history of calls.
use astroid_club.Prelude.{
  Bool, List, Option-cases, [], arith, holds, inl, inr, nat_eq, some, true, ℕ, ◌∷◌, ◌≡◌,
}
use astroid_club.Expeditions.{
  Expedition, Tracker, new_tracker, create_expedition, join_expedition, start_return,
  complete_expedition, leave_expedition, cleanup,
}
use astroid_club.Cooldowns.{Manager}
use astroid_club.StakeManager.Positions.{Positions}
use astroid_club.AsteroidRegistry.{includes}
use astroid_club.JsMap.{get}
use astroid_club.Prelude.Fraction.{Fraction}
use astroid_club.Expeditions.Owners.{is_open}
use astroid_club.Expeditions.Steps.{
  Good, or_same, create-Good, join-Good, start_return-Good, complete-Good, leave-Good, cleanup-Good,
}

pub data Call : Type 0 where
  creates : (cap : ℕ) → Fraction → (now id wallet source target drill bet : ℕ) → Call
  joins : (cap : ℕ) → Fraction → (now id wallet drill bet : ℕ) → Call
  returns : ℕ → Call
  completes : (now id : ℕ) → Bool → Call
  leaves : (now wallet : ℕ) → Call
  cleans : ℕ → Call

unfoldable pub apply : Call → Tracker → Tracker
apply (creates c slope now id w a b drill bet) t =
    or_same (create_expedition c slope now id w a b drill bet t) t
apply (joins c slope now id w drill bet) t =
    or_same (join_expedition c slope now id w drill bet t) t
apply (returns id) t = start_return id t
apply (completes now id success) t = complete_expedition now id success t
apply (leaves now w) t = (leave_expedition now w t).0
apply (cleans now) t = cleanup now t

-- The tracker after a history (newest first).
unfoldable pub after : Tracker → List Call → Tracker
after t [] = t
after t (x ∷ older) = apply x (after t older)

-- Not a second end: an expedition that returns or completes is there and not yet resolved.
abbrev pub is_unresolved : ℕ → Tracker → Bool
is_unresolved id t = holds (λ e. is_open e.status) (get id t.expeditions)

abbrev pub is_timely : Call → Tracker → Bool
is_timely (creates c slope now id w a b drill bet) t = true
is_timely (joins c slope now id w drill bet) t = true
is_timely (returns id) t = is_unresolved id t
is_timely (completes now id success) t = is_unresolved id t
is_timely (leaves now w) t = true
is_timely (cleans now) t = true

unfoldable pub Timely : Tracker → List Call → Type 0
Timely t [] = Unit
Timely t (x ∷ older) = (is_timely x (after t older) ≡ true) × Timely t older

found :
    (id : ℕ) (t : Tracker)
    → is_unresolved id t ≡ true
    → (e : Expedition) × ((get id t.expeditions ≡ some e) × (is_open e.status ≡ true))
found id t h = elim (Option-cases (get id t.expeditions)) [
  | inl q ↦ absurd (ground (arith, h, q))
  | inr (e, q) ↦ (e, (q, ground (arith, h, q)))
]

apply-Good : (x : Call) (t : Tracker) → is_timely x t ≡ true → Good t → Good (apply x t)
unfolding apply
apply-Good (creates c slope now id w a b drill bet) t h g =
    create-Good c slope now id w a b drill bet t g
apply-Good (joins c slope now id w drill bet) t h g = join-Good c slope now id w drill bet t g
apply-Good (returns id) t h g = let f = found id t h in start_return-Good id f.0 t f.1.0 f.1.1 g
apply-Good (completes now id success) t h g =
    let f = found id t h in complete-Good now id success f.0 t f.1.0 f.1.1 g
apply-Good (leaves now w) t h g = leave-Good now w t g
apply-Good (cleans now) t h g = cleanup-Good now t g

after-Good : (xs : List Call) (t : Tracker) → Timely t xs → Good t → Good (after t xs)
unfolding after Timely
after-Good [] t h g = g
after-Good (x ∷ older) t h g = apply-Good x (after t older) h.0 (after-Good older t h.1 g)

new-Good : (duration : ℕ) (c : Manager) (p : Positions) → Good (new_tracker duration c p)
unfolding new_tracker
new-Good duration c p i e q = absurd (ground (arith, q))

-- After any history in which only unresolved expeditions return or complete, a wallet that is listed
-- on an unresolved expedition is indexed under that one, and so it is on no other.
pub on_one_expedition :
    (duration : ℕ) (c : Manager) (p : Positions) (xs : List Call) (i w : ℕ) (e : Expedition)
    → let t0 = new_tracker duration c p in
      Timely t0 xs
      → get i (after t0 xs).expeditions ≡ some e
      → is_open e.status ≡ true
      → includes w e.attackers ≡ true
      → get w (after t0 xs).attacker_expeditions ≡ some i
on_one_expedition duration c p xs i w e h q o l =
    let t0 = new_tracker duration c p in (after-Good xs t0 h (new-Good duration c p) i e q).1 w o l
