-- ===== src/JsMap.antt =====
-- JavaScript's `Map` and `Set`: the entries in insertion order, each key once.
pub mod Laws
pub mod Sums
use astroid_club.Prelude.{
  All, Bool, Bool-cases, Eq, List, Option, Option-cases, [], ap, arith, false, get_or, holds,
  if_keeps, if◌then◌else◌, inl, inr, is_some, leb, length, length-append, ltb, map, max, min,
  nat_beq_iff, nat_eq, none, not, refl, some, subst, suc, sum_by, sum_by-append, sym, true, zero, ℕ,
  ◌%◌, ◌&&◌, ◌*◌, ◌++◌, ◌+◌, ◌-◌, ◌/◌, ◌<◌, ◌==◌, ◌||◌, ◌↔◌, ◌∙◌, ◌∷◌, ◌≡◌, ◌≢◌, ◌≤◌, ◌⊎◌,
}

abbrev pub JsMap {ℓ κ} : Type ℓ → Type κ → Type (ℓ ⊔ κ)
JsMap K V = List (K × V)

abbrev pub JsSet {ℓ} : Type ℓ → Type ℓ
JsSet K = List (K × Unit {0})

module _ {ℓ κ} {K : Type ℓ} {V : Type κ} ⦃e : Eq K⦄ where
  abbrev pub get : K → JsMap K V → Option V
  get k [] = none
  get k ((j, v) ∷ m) = if k == j then some v else get k m

  abbrev pub has : K → JsMap K V → Bool
  has k m = is_some (get k m)

  -- A new key goes to the end; an old one keeps its place.
  abbrev pub set : K → V → JsMap K V → JsMap K V
  set k v [] = (k, v) ∷ []
  set k v ((j, w) ∷ m) = if k == j then (j, v) ∷ m else (j, w) ∷ set k v m

  abbrev pub delete : K → JsMap K V → JsMap K V
  delete k [] = []
  delete k ((j, v) ∷ m) = let rest = delete k m in if k == j then rest else (j, v) ∷ rest

  -- An in-place change of the value under a key, where there is one.
  abbrev pub update : K → (V → V) → JsMap K V → JsMap K V
  update k f [] = []
  update k f ((j, v) ∷ m) = if k == j then (j, f v) ∷ m else (j, v) ∷ update k f m

  -- No key is listed twice.
  abbrev pub IsUnique : JsMap K V → Type κ
  IsUnique [] = Unit
  IsUnique ((j, v) ∷ m) = (get j m ≡ none) × IsUnique m

module _ {ℓ κ} {K : Type ℓ} {V : Type κ} where
  abbrev pub size : JsMap K V → ℕ
  size = length

  -- A change of every value in place.
  abbrev pub map_values : (V → V) → JsMap K V → JsMap K V
  map_values f [] = []
  map_values f ((j, v) ∷ m) = (j, f v) ∷ map_values f m

  abbrev pub values : JsMap K V → List V
  values = map (λ e. e.1)

  abbrev pub keys : JsMap K V → List K
  keys = map (λ e. e.0)

abbrev pub add {ℓ} : {K : Type ℓ} ⦃e : Eq K⦄ → K → JsSet K → JsSet K
add k = set k tt
