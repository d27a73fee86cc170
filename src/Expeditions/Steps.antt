-- ===== src/Expeditions/Steps.antt =====
-- Every call of the expedition tracker keeps the index true, and so do histories of calls.
use astroid_club.Prelude.{
  Bool, Bool-cases, Option, Option-cases, [], arith, false, get_or, if_cases, if_keeps,
  if◌then◌else◌, inl, inr, length, nat_eq, none, refl, some, true, ℕ, ◌==◌, ◌∷◌, ◌≡◌, ◌≢◌,
}
use astroid_club.Prelude.Fraction.{Fraction}
use astroid_club.JsMap.{get}
use astroid_club.JsMap.Laws.{get-set, get-delete}
use astroid_club.AsteroidRegistry.{includes}
use astroid_club.Expeditions.{
  Expedition, JsMap, Status, Tracker, active, cleanup, cleanup_loop, complete_expedition, completed,
  create_expedition, delete, depart, drop_first, enlist, failed, is_active, is_held, is_misplaced,
  is_resting, is_shut, is_stale, join_expedition, launch, leave_expedition, release, returning, set,
  start_return,
}
use astroid_club.Expeditions.Owners.{
  is_open, Indexed, change-Indexed, includes-append, Distinct-append, get-release, delete-Indexed,
  includes-drop_first, drop_first-Distinct,
}

abbrev pub Good : Tracker → Type 0
Good t = Indexed t.expeditions t.attacker_expeditions

active_open : (s : Status) → is_active s ≡ true → is_open s ≡ true
active_open active h = refl
active_open returning h = absurd (ground (arith, h))
active_open completed h = absurd (ground (arith, h))
active_open failed h = absurd (ground (arith, h))

resolved_now : (success : Bool) → is_open (if success then completed else failed) ≢ true
resolved_now true h = ground (arith, h)
resolved_now false h = ground (arith, h)

not_there :
    (w : ℕ) (e : Expedition) (t : Tracker)
    → get w t.attacker_expeditions ≡ none
    → {i : ℕ} → (includes w e.attackers ≡ true → get w t.attacker_expeditions ≡ some i)
    → includes w e.attackers ≡ false
not_there w e t n h = elim (Bool-cases (includes w e.attackers)) [
  | inl x ↦ absurd (ground (arith, n, h x))
  | inr x ↦ x
]

launch-Good :
    (cap : ℕ) (slope : Fraction) (now id w a b drill bet : ℕ) (t : Tracker)
    → get w t.attacker_expeditions ≡ none
    → Good t
    → Good (launch cap slope now id w a b drill bet t)
unfolding launch includes
launch-Good cap slope now id w a b drill bet t n g =
    change-Indexed id _ t.expeditions t.attacker_expeditions _ g (refl, tt)
      (λ v o l. ground (arith, l, get-set v w id t.attacker_expeditions))
      (λ v i d h. ground (arith, d, h, n, get-set v w id t.attacker_expeditions))

enlist-Good :
    (cap : ℕ) (slope : Fraction) (now id w drill bet : ℕ) (e : Expedition) (t : Tracker)
    → get w t.attacker_expeditions ≡ none
    → get id t.expeditions ≡ some e
    → is_active e.status ≡ true
    → Good t
    → Good (enlist cap slope now id w drill bet e t)
unfolding enlist
enlist-Good cap slope now id w drill bet e t n q act g =
    let open_now : is_open e.status ≡ true = active_open e.status act in
    let old = g id e q in
    change-Indexed id _ t.expeditions t.attacker_expeditions _ g
      (Distinct-append w e.attackers old.0 (not_there w e t n (old.1 w open_now)))
      (λ v o l. elim (Bool-cases (includes v e.attackers)) [
        | inl x ↦ ground (arith, n, get-set v w id t.attacker_expeditions, old.1 v open_now x)
        | inr x ↦
            ground
              (arith, x, l, includes-append v w e.attackers, get-set v w id t.attacker_expeditions)
      ])
      (λ v i d h. ground (arith, d, h, n, get-set v w id t.attacker_expeditions))

pub start_return-Good :
    (id : ℕ) (e : Expedition) (t : Tracker)
    → get id t.expeditions ≡ some e
    → is_open e.status ≡ true
    → Good t
    → Good (start_return id t)
unfolding start_return
start_return-Good id e t q o g =
    rw (start_return, q)
      (change-Indexed id (record e { status = returning }) t.expeditions t.attacker_expeditions
        t.attacker_expeditions g (g id e q).0 (λ v open_now l. (g id e q).1 v o l) (λ v i d h. h))

pub complete-Good :
    (now id : ℕ) (success : Bool) (e : Expedition) (t : Tracker)
    → get id t.expeditions ≡ some e
    → is_open e.status ≡ true
    → Good t
    → Good (complete_expedition now id success t)
unfolding complete_expedition
complete-Good now id success e t q o g =
    rw (complete_expedition, q)
      (change-Indexed id (record e { status = if success then completed else failed }) t.expeditions
        t.attacker_expeditions (release e.attackers t.attacker_expeditions) g (g id e q).0
        (λ v open_now l. absurd (resolved_now success open_now))
        (λ v i d h. elim (Bool-cases (includes v e.attackers)) [
          | inl x ↦ ground (arith, d, h, (g id e q).1 v o x)
          | inr x ↦ ground (arith, h, x, get-release v e.attackers t.attacker_expeditions)
        ]))

depart-Good :
    (now id w : ℕ) (e : Expedition) (t : Tracker)
    → get w t.attacker_expeditions ≡ some id
    → get id t.expeditions ≡ some e
    → Good t
    → Good (depart now id w e t)
unfolding depart
depart-Good now id w e t n q g =
    let at = t.attacker_expeditions in
    let rest = drop_first w e.attackers in
    let keep : (v i : ℕ) → (i == id) ≡ false → get v at ≡ some i → get v (delete w at) ≡ some i =
      λ v i d h. ground (arith, d, h, n, get-delete v w at) in
    if_keeps (λ es. Indexed es (delete w at)) (length rest == 0) (delete id t.expeditions)
      (set id (record e { attackers = rest; bets = delete w e.bets }) t.expeditions)
      (delete-Indexed id t.expeditions at (delete w at) g keep)
      (change-Indexed id (record e { attackers = rest; bets = delete w e.bets }) t.expeditions at
        (delete w at) g (drop_first-Distinct w e.attackers (g id e q).0)
        (λ v o l.
          let both = includes-drop_first v w e.attackers (g id e q).0 in
          let listed : includes v e.attackers ≡ true = ground (arith, both, l) in
          ground (arith, both, l, (g id e q).1 v o listed, get-delete v w at))
        keep)

pub leave-Good : (now w : ℕ) (t : Tracker) → Good t → Good (leave_expedition now w t).0
unfolding leave_expedition
leave-Good now w t g = elim (Option-cases (get w t.attacker_expeditions)) [
  | inl n ↦ rw (leave_expedition, n) g
  | inr (id, n) ↦ elim (Option-cases (get id t.expeditions)) [
    | inl q ↦ rw (leave_expedition, n, q) g
    | inr (e, q) ↦ rw (leave_expedition, n, q) (depart-Good now id w e t n q g)
  ]
]

cleanup_loop-Indexed :
    (now : ℕ) (todo es : JsMap ℕ Expedition) (at : JsMap ℕ ℕ)
    → Indexed es at
    → Indexed (cleanup_loop now todo es) at
unfolding cleanup_loop
cleanup_loop-Indexed now [] es at h = h
cleanup_loop-Indexed now ((i, e) ∷ rest) es at h = cleanup_loop-Indexed now rest _ at (
    if_keeps (λ x. Indexed x at) (is_stale now e) (delete i es) es
      (delete-Indexed i es at at h (λ w j d q. q)) h)

pub cleanup-Good : (now : ℕ) (t : Tracker) → Good t → Good (cleanup now t)
unfolding cleanup
cleanup-Good now t g = cleanup_loop-Indexed now t.expeditions t.expeditions _ g

-- What an operation that may be refused leaves.
abbrev pub or_same : Option Tracker → Tracker → Tracker
or_same o t = get_or o t

not_shut :
    (now w bet : ℕ) (e : Expedition) (t : Tracker)
    → is_shut now w bet e t ≡ false
    → (get w t.attacker_expeditions ≡ none) × (is_active e.status ≡ true)
not_shut now w bet e t x = ground (arith, x)

not_held :
    (now w a b bet : ℕ) (t : Tracker)
    → is_held now w a b bet t ≡ false
    → get w t.attacker_expeditions ≡ none
not_held now w a b bet t x = ground (arith, x)

pub create-Good :
    (cap : ℕ) (slope : Fraction) (now id w a b drill bet : ℕ) (t : Tracker)
    → Good t
    → Good (or_same (create_expedition cap slope now id w a b drill bet t) t)
unfolding create_expedition
create-Good cap slope now id w a b drill bet t g =
    let Keeps : Option Tracker → Type 0 = λ o. Good (or_same o t) in
    let launched = some (launch cap slope now id w a b drill bet t) in
    let last = if is_held now w a b bet t then none else launched in
    let middle = if is_resting now w t then none else last in
    if_keeps Keeps (is_misplaced a b t) none middle g (
      if_keeps Keeps (is_resting now w t) none last g (
        if_cases Keeps (is_held now w a b bet t) none launched (λ x. g)
          (λ x. launch-Good cap slope now id w a b drill bet t (not_held now w a b bet t x) g)))

pub join-Good :
    (cap : ℕ) (slope : Fraction) (now id w drill bet : ℕ) (t : Tracker)
    → Good t
    → Good (or_same (join_expedition cap slope now id w drill bet t) t)
unfolding join_expedition
join-Good cap slope now id w drill bet t g = elim (Option-cases (get id t.expeditions)) [
  | inl q ↦ rw (join_expedition, q) g
  | inr (e, q) ↦
      rw (join_expedition, q)
        (if_cases (λ o. Good (or_same o t)) (is_shut now w bet e t) none
          (some (enlist cap slope now id w drill bet e t)) (λ x. g)
          (λ x.
            let facts = not_shut now w bet e t x in
            enlist-Good cap slope now id w drill bet e t facts.0 q facts.1 g))
]
