-- ===== src/Expeditions/Owners.antt =====
-- Who is on which expedition, after one call.
use astroid_club.Prelude.{
  Bool, Bool-cases, List, [], ap, arith, false, if_keeps, if◌then◌else◌, inl, inr, nat_eq, none,
  not, refl, some, subst, true, ℕ, ◌&&◌, ◌++◌, ◌==◌, ◌||◌, ◌∙◌, ◌∷◌, ◌≡◌,
}
use astroid_club.JsMap.{JsMap, get, set, delete}
use astroid_club.JsMap.Laws.{get-set, get-delete}
use astroid_club.AsteroidRegistry.{includes}
use astroid_club.Expeditions.{Status, Expedition, is_resolved, release, drop_first}

abbrev pub is_open : Status → Bool
is_open s = not (is_resolved s)

abbrev pub Distinct : List ℕ → Type 0
Distinct [] = Unit
Distinct (x ∷ xs) = (includes x xs ≡ false) × Distinct xs

-- The index names the expedition of everyone on an unresolved one, and no one is on one twice.
abbrev pub Indexed : JsMap ℕ Expedition → JsMap ℕ ℕ → Type 0
Indexed es at =
    (i : ℕ) (e : Expedition)
    → get i es ≡ some e
    → Distinct e.attackers
      × ((w : ℕ) → is_open e.status ≡ true → includes w e.attackers ≡ true → get w at ≡ some i)

-- A new state for one expedition, and a new index.
pub change-Indexed :
    (id : ℕ) (e : Expedition) (es : JsMap ℕ Expedition) (at at' : JsMap ℕ ℕ)
    → Indexed es at
    → Distinct e.attackers
    → ((w : ℕ) → is_open e.status ≡ true → includes w e.attackers ≡ true → get w at' ≡ some id)
    → ((w i : ℕ) → (i == id) ≡ false → get w at ≡ some i → get w at' ≡ some i)
    → Indexed (set id e es) at'
change-Indexed id e es at at' h d own keep i f q = elim (Bool-cases (i == id)) [
  | inl s ↦
      let same : e ≡ f = ground (arith, s, q, get-set i id e es) in
      let here : id ≡ i = ground (arith, s) in
      subst
        (λ x.
          Distinct x.attackers
          × ((w : ℕ)
              → is_open x.status ≡ true
              → includes w x.attackers ≡ true
              → get w at' ≡ some i))
        same (d, λ w o l. own w o l ∙ ap some here)
  | inr s ↦
      let old : get i es ≡ some f = ground (arith, s, q, get-set i id e es) in
      ((h i f old).0, λ w o l. keep w i s ((h i f old).1 w o l))
]

pub includes-append :
    (w v : ℕ) (xs : List ℕ) → includes w (xs ++ (v ∷ [])) ≡ (includes w xs || w == v)
unfolding includes
includes-append w v [] = ground arith
includes-append w v (x ∷ xs) = ground (arith, includes-append w v xs)

pub Distinct-append :
    (v : ℕ) (xs : List ℕ) → Distinct xs → includes v xs ≡ false → Distinct (xs ++ (v ∷ []))
unfolding includes
Distinct-append v [] d n = (refl, tt)
Distinct-append v (x ∷ xs) d n =
    (ground (arith, d.0, n, includes-append x v xs), Distinct-append v xs d.1 (ground (arith, n)))

pub includes-drop_first :
    (w v : ℕ) (xs : List ℕ)
    → Distinct xs
    → includes w (drop_first v xs) ≡ (includes w xs && not (w == v))
unfolding includes drop_first
includes-drop_first w v [] d = refl
includes-drop_first w v (x ∷ xs) d = ground (arith, d.0, includes-drop_first w v xs d.1)

pub drop_first-Distinct : (v : ℕ) (xs : List ℕ) → Distinct xs → Distinct (drop_first v xs)
unfolding drop_first
drop_first-Distinct v [] d = tt
drop_first-Distinct v (x ∷ xs) d =
    if_keeps Distinct (v == x) xs (x ∷ drop_first v xs) d.1
      (ground (arith, d.0, includes-drop_first x v xs d.1), drop_first-Distinct v xs d.1)

pub get-release :
    (w : ℕ) (xs : List ℕ) (m : JsMap ℕ ℕ)
    → get w (release xs m) ≡ (if includes w xs then none else get w m)
unfolding release includes
get-release w [] m = ground arith
get-release w (x ∷ xs) m = ground (arith, get-release w xs (delete x m), get-delete w x m)

pub delete-Indexed :
    (id : ℕ) (es : JsMap ℕ Expedition) (at at' : JsMap ℕ ℕ)
    → Indexed es at
    → ((w i : ℕ) → (i == id) ≡ false → get w at ≡ some i → get w at' ≡ some i)
    → Indexed (delete id es) at'
delete-Indexed id es at at' h keep i f q =
    let other : (i == id) ≡ false = ground (arith, q, get-delete i id es) in
    let old : get i es ≡ some f = ground (arith, q, get-delete i id es) in
    ((h i f old).0, λ w o l. keep w i other ((h i f old).1 w o l))
