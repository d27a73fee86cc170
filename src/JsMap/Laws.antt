-- ===== src/JsMap/Laws.antt =====
-- What a lookup finds after each change of a map, and that a key stays unique.
use astroid_club.Prelude.{
  Eq, [], arith, false, if◌then◌else◌, nat_eq, none, refl, some, true, ◌==◌, ◌∷◌, ◌≡◌, ◌≢◌,
}
use mathlib.Core.Option
use astroid_club.JsMap.{JsMap, get, set, delete, update, map_values, IsUnique}

module _ {ℓ κ} {K : Type ℓ} {V : Type κ} ⦃e : Eq K⦄ where
  pub get-set :
      (j k : K) (v : V) (m : JsMap K V) → get j (set k v m) ≡ (if j == k then some v else get j m)
  get-set j k v [] = refl
  get-set j k v ((i, w) ∷ m) =
      ground (arith, e.beq_iff j k, e.beq_iff k i, e.beq_iff j i, get-set j k v m)

  pub get-delete :
      (j k : K) (m : JsMap K V) → get j (delete k m) ≡ (if j == k then none else get j m)
  get-delete j k [] = ground arith
  get-delete j k ((i, w) ∷ m) =
      ground (arith, e.beq_iff j k, e.beq_iff k i, e.beq_iff j i, get-delete j k m)

  pub get-update :
      (j k : K) (f : V → V) (m : JsMap K V)
      → get j (update k f m) ≡ (if j == k then Option.map f (get j m) else get j m)
  get-update j k f [] = ground arith
  get-update j k f ((i, w) ∷ m) =
      ground (arith, e.beq_iff j k, e.beq_iff k i, e.beq_iff j i, get-update j k f m)

  pub get-map_values :
      (j : K) (f : V → V) (m : JsMap K V) → get j (map_values f m) ≡ Option.map f (get j m)
  get-map_values j f [] = refl
  get-map_values j f ((i, w) ∷ m) = ground (arith, get-map_values j f m)

  pub set-IsUnique : (k : K) (v : V) (m : JsMap K V) → IsUnique m → IsUnique (set k v m)
  set-IsUnique k v [] u = (refl, tt)
  set-IsUnique k v ((i, w) ∷ m) u =
      ground (arith, e.beq_iff k i, e.beq_iff i k, set-IsUnique k v m u.1, get-set i k v m)

  pub delete-IsUnique : (k : K) (m : JsMap K V) → IsUnique m → IsUnique (delete k m)
  delete-IsUnique k [] u = tt
  delete-IsUnique k ((i, w) ∷ m) u = ground (arith, delete-IsUnique k m u.1, get-delete i k m)

  pub update-IsUnique : (k : K) (f : V → V) (m : JsMap K V) → IsUnique m → IsUnique (update k f m)
  update-IsUnique k f [] u = tt
  update-IsUnique k f ((i, w) ∷ m) u =
      ground (arith, e.beq_iff k i, update-IsUnique k f m u.1, get-update i k f m)

module _ {ℓ} {K : Type ℓ} ⦃e : Eq K⦄ where
  pub beq_refl : (k : K) → (k == k) ≡ true
  beq_refl k = (e.beq_iff k k).1 refl

  pub beq_ne : (j k : K) → j ≢ k → (j == k) ≡ false
  beq_ne j k h = ground (arith, e.beq_iff j k)
