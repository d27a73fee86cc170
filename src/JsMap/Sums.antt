-- ===== src/JsMap/Sums.antt =====
-- Sums of a measure over the values of a map.
use astroid_club.Prelude.{ℕ, ◌+◌, ◌≤◌, ◌≡◌, refl, Option, none, some, [], ◌∷◌, arith, Eq}
use astroid_club.JsMap.{JsMap, get, set, delete, update, IsUnique, size}

module _ {ℓ κ} {K : Type ℓ} {V : Type κ} where
  abbrev pub total : (V → ℕ) → JsMap K V → ℕ
  total f [] = 0
  total f ((k, v) ∷ m) = f v + total f m

-- What a key contributes.
abbrev pub part {κ} : {V : Type κ} → (V → ℕ) → Option V → ℕ
part f none = 0
part f (some v) = f v

module _ {ℓ κ} {K : Type ℓ} {V : Type κ} ⦃e : Eq K⦄ where
  pub total-set :
      (f : V → ℕ) (k : K) (v : V) (m : JsMap K V)
      → total f (set k v m) + part f (get k m) ≡ total f m + f v
  total-set f k v [] = omega arith
  total-set f k v ((i, w) ∷ m) = ground (arith, total-set f k v m)

  pub total-delete_missing :
      (f : V → ℕ) (k : K) (m : JsMap K V) → get k m ≡ none → total f (delete k m) ≡ total f m
  total-delete_missing f k [] h = refl
  total-delete_missing f k ((i, w) ∷ m) h = ground (arith, total-delete_missing f k m)

  pub total-delete :
      (f : V → ℕ) (k : K) (m : JsMap K V)
      → IsUnique m
      → total f (delete k m) + part f (get k m) ≡ total f m
  total-delete f k [] u = omega arith
  total-delete f k ((i, w) ∷ m) u =
      ground (arith, e.beq_iff k i, total-delete f k m u.1, total-delete_missing f k m)

  pub part-le-total : (f : V → ℕ) (k : K) (m : JsMap K V) → part f (get k m) ≤ total f m
  part-le-total f k [] = omega arith
  part-le-total f k ((i, w) ∷ m) = ground (arith, part-le-total f k m)

  pub total-update :
      (f : V → ℕ) (k : K) (g : V → V) (m : JsMap K V)
      → total f (update k g m) + part f (get k m) ≡ total f m + part f (get k (update k g m))
  total-update f k g [] = omega arith
  total-update f k g ((i, w) ∷ m) = ground (arith, total-update f k g m)

module _ {ℓ κ} {K : Type ℓ} {V : Type κ} ⦃e : Eq K⦄ where
  pub size-set : (k : K) (v : V) (m : JsMap K V) → get k m ≡ none → size (set k v m) ≡ size m + 1
  size-set k v [] h = omega arith
  size-set k v ((i, w) ∷ m) h = ground (arith, size-set k v m)

  pub size-delete : (k : K) (m : JsMap K V) → size (delete k m) ≤ size m
  size-delete k [] = omega arith
  size-delete k ((i, w) ∷ m) = ground (arith, size-delete k m)

  pub size-update : (k : K) (f : V → V) (m : JsMap K V) → size (update k f m) ≡ size m
  size-update k f [] = refl
  size-update k f ((i, w) ∷ m) = ground (arith, size-update k f m)
