-- ===== src/StakeManager/Positions/Books.antt =====
-- The books of the stakes: a miner's total and an asteroid's total against the records.
use astroid_club.Prelude.{
  Bool-cases, List, Option-cases, [], arith, if◌then◌else◌, inl, inr, nat_eq, none, refl, some,
  sum_by, sum_by-append, ℕ, ◌&&◌, ◌+◌, ◌==◌, ◌∷◌, ◌≡◌, ◌≤◌,
}
use astroid_club.Prelude.Int.{ℤ}
use astroid_club.JsMap.{get, has}
use astroid_club.JsMap.Laws.{get-set}
use astroid_club.JsMap.Sums.{total}
use astroid_club.AsteroidRegistry.{Registry}
use astroid_club.AsteroidRegistry.Miners.{update_asteroid_stake, shifted}
use astroid_club.StakeManager.Positions.{
  Miner, Stake, Positions, new_stake, miner_of, change_miner, set_home_station, is_at, find_stake,
  raise, lower, stakes_of, staked_list, moved_home,
}

abbrev pub amount_of : Stake → ℕ
amount_of s = s.amount

abbrev pub amounts : List Stake → ℕ
amounts = sum_by amount_of

-- What a list has staked at an asteroid.
abbrev pub amount_at : ℕ → List Stake → ℕ
amount_at a = sum_by (λ s. if is_at a s then s.amount else 0)

amounts-raise :
    (a n : ℕ) (ss : List Stake) (s : Stake)
    → find_stake a ss ≡ some s
    → amounts (raise a n ss) ≡ amounts ss + n
unfolding find_stake raise
amounts-raise a n [] s e = ground (arith, e)
amounts-raise a n (x ∷ ss) s e = ground (arith, e, amounts-raise a n ss s)

amount_at-raise :
    (a b n : ℕ) (ss : List Stake) (s : Stake)
    → find_stake a ss ≡ some s
    → amount_at b (raise a n ss) ≡ amount_at b ss + (if b == a then n else 0)
unfolding find_stake raise
amount_at-raise a b n [] s e = ground (arith, e)
amount_at-raise a b n (x ∷ ss) s e = ground (arith, e, amount_at-raise a b n ss s)

pub amounts-lower :
    (a n : ℕ) (ss : List Stake) (s : Stake)
    → find_stake a ss ≡ some s
    → n ≤ s.amount
    → amounts (lower a n ss) + n ≡ amounts ss
unfolding find_stake lower
amounts-lower a n [] s e h = ground (arith, e)
amounts-lower a n (x ∷ ss) s e h = ground (arith, e, h, amounts-lower a n ss s)

pub amount_at-lower :
    (a b n : ℕ) (ss : List Stake) (s : Stake)
    → find_stake a ss ≡ some s
    → n ≤ s.amount
    → amount_at b (lower a n ss) + (if b == a then n else 0) ≡ amount_at b ss
unfolding find_stake lower
amount_at-lower a b n [] s e h = ground (arith, e)
amount_at-lower a b n (x ∷ ss) s e h = ground (arith, e, h, amount_at-lower a b n ss s)

pub amounts-staked_list :
    (now a n : ℕ) (m : Miner) (ss : List Stake)
    → amounts (staked_list now a n m ss) ≡ amounts ss + n
unfolding staked_list
amounts-staked_list now a n m ss = elim (Option-cases (find_stake a ss)) [
  | inl e ↦ ground (arith, e, sum_by-append amount_of ss (new_stake now a n m ∷ []))
  | inr (s, e) ↦ ground (arith, e, amounts-raise a n ss s e)
]

pub amount_at-staked_list :
    (now a n b : ℕ) (m : Miner) (ss : List Stake)
    → amount_at b (staked_list now a n m ss) ≡ amount_at b ss + (if b == a then n else 0)
unfolding staked_list
amount_at-staked_list now a n b m ss = elim (Option-cases (find_stake a ss)) [
  | inl e ↦
      let x = new_stake now a n m in
      ground (arith, e, sum_by-append (λ s. if is_at b s then s.amount else 0) ss (x ∷ []))
  | inr (s, e) ↦ ground (arith, e, amount_at-raise a b n ss s e)
]

-- The total that the registry has for an asteroid.
abbrev pub staked_in : ℕ → Registry → ℕ
staked_in a r = elim (get a r.asteroids) [ none ↦ 0 | some s ↦ s.total_stake ]

pub staked_in-update :
    (a b : ℕ) (d : ℤ) (r : Registry)
    → staked_in b (update_asteroid_stake a d r)
      ≡ (if b == a && has a r.asteroids then shifted (staked_in a r) d else staked_in b r)
unfolding update_asteroid_stake
staked_in-update a b d r = elim (Option-cases (get a r.asteroids)) [
  | inl e ↦ ground (arith, e)
  | inr (s, e) ↦
      ground
        (arith, e, get-set b a (record s { total_stake = shifted s.total_stake d }) r.asteroids)
]

-- Every miner's total is the sum of his records, and every asteroid's total the sum of the records
-- at it.
pub record Books (p : Positions) : Type 0 where
  pub miner : (w : ℕ) → (miner_of w p).total_stake ≡ amounts (stakes_of w p)
  pub asteroid : (a : ℕ) → staked_in a p.registry ≡ total (amount_at a) p.stakes

-- A change of a miner's state that leaves his total alone.
pub change_miner-Books :
    (w : ℕ) (f : Miner → Miner) (p : Positions)
    → ((m : Miner) → (f m).total_stake ≡ m.total_stake)
    → Books p
    → Books (change_miner w f p)
change_miner-Books w f p k b = record {
  miner = λ v. ground (arith, b.miner v, k (miner_of w p), get-set v w (f (miner_of w p)) p.miners);
  asteroid = b.asteroid;
}

pub set_home_station-Books :
    (now w a : ℕ) (p : Positions) → Books p → Books (set_home_station now w a p).0
unfolding set_home_station
set_home_station-Books now w a p b =
    let c = change_miner-Books w (moved_home now a) p (λ m. refl) b in
    elim (Bool-cases (has a p.registry.asteroids)) [
      | inl e ↦ rw (set_home_station, e) (record { miner = c.miner; asteroid = c.asteroid })
      | inr e ↦ rw (set_home_station, e) b
    ]
