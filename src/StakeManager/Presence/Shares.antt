-- ===== src/StakeManager/Presence/Shares.antt =====
-- The shares of the stakers of an asteroid.
use astroid_club.Prelude.{List, [], ap, arith, nat_eq, refl, sum_by, true, ℕ, ◌*◌, ◌∷◌, ◌≡◌, ◌≤◌}
use native.Mathlib.Nat.{mul-add}
use astroid_club.JsMap.{keys}
use astroid_club.StakeManager.Positions.{Positions}
use astroid_club.StakeManager.Presence.{
  effective_stake_at, get_asteroid_effective_stake_total, share_total, calculate_yield_share,
}

sum_by-scaled : (f : ℕ → ℕ) (y : ℕ) (ws : List ℕ) → sum_by (λ w. y * f w) ws ≡ y * sum_by f ws
sum_by-scaled f y [] = omega arith
sum_by-scaled f y (w ∷ ws) = omega (arith, sum_by-scaled f y ws, mul-add y (f w) (sum_by f ws))

share-parts :
    (a y : ℕ) (p : Positions) (ws : List ℕ)
    → 1 ≤ share_total a p
    → sum_by (λ w. (calculate_yield_share w a y p).num) ws
      ≡ sum_by (λ w. y * effective_stake_at w a p) ws
unfolding calculate_yield_share
share-parts a y p [] h = refl
share-parts a y p (w ∷ ws) h = ground (arith, h, share-parts a y p ws h)

share-den :
    (w a y : ℕ) (p : Positions)
    → 1 ≤ share_total a p
    → (calculate_yield_share w a y p).den ≡ 2 * share_total a p
unfolding calculate_yield_share
share-den w a y p h = ground (arith, h)

share_total-quarry :
    (a : ℕ) (p : Positions)
    → p.quarry_enabled ≡ true
    → share_total a p ≡ sum_by (λ v. effective_stake_at v a p) (keys p.miners)
unfolding share_total get_asteroid_effective_stake_total
share_total-quarry a p q = rw q

-- With on-chain stakes, the shares of all miners of an asteroid that has any stake have one
-- denominator, and add up to half of the yield.
pub shares_make_half :
    (w a y : ℕ) (p : Positions)
    → p.quarry_enabled ≡ true
    → 1 ≤ share_total a p
    → let den = (calculate_yield_share w a y p).den in
      (den ≡ 2 * share_total a p)
      × (2 * sum_by (λ v. (calculate_yield_share v a y p).num) (keys p.miners) ≡ y * den)
shares_make_half w a y p q h =
    let d = share-den w a y p h in
    let n = share-parts a y p (keys p.miners) h in
    let m = sum_by-scaled (λ v. effective_stake_at v a p) y (keys p.miners) in
    let t = share_total-quarry a p q in
    (d, omega (arith, n, m, ap (λ (x : ℕ). y * x) t, ap (λ (x : ℕ). y * x) d))
