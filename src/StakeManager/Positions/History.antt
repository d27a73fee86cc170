-- ===== src/StakeManager/Positions/History.antt =====
-- The stakes over any history of calls, and an unstake after a stake.
use astroid_club.Prelude.{
  Bool, List, Option, Option-cases, [], arith, holds, if◌then◌else◌, inl, inr, is_some, leb, min,
  nat_eq, none, refl, some, true, ℕ, ◌++◌, ◌+◌, ◌==◌, ◌∷◌, ◌≡◌, ◌≤◌,
}
use astroid_club.Prelude.Int.{ℤ, pos}
use astroid_club.JsMap.{get, has}
use astroid_club.JsMap.Laws.{get-set}
use astroid_club.JsMap.Sums.{total}
use astroid_club.AsteroidRegistry.{Registry}
use astroid_club.StakeManager.Positions.{
  Miner, Stake, Positions, new_positions, miner_of, set_home_station, new_stake,
  restore_home_station, is_at, find_stake, raise, stakes_of, staked_list, stake, unstake,
  request_unstake, process_unstake, put_stake, home_first, lower,
}
use astroid_club.StakeManager.Positions.Books.{
  amounts, amount_at, staked_in, Books, change_miner-Books, set_home_station-Books,
  amount_at-staked_list, amount_at-lower,
}
use astroid_club.StakeManager.Positions.Staking.{stake-Books, process_unstake-Books}

-- A call that moves stakes or homes.
pub data Call : Type 0 where
  homes : (now wallet asteroid : ℕ) → Call
  restores : ℕ → Option ℕ → Call
  puts : (now wallet asteroid : ℕ) → ℤ → Call
  takes : (wallet asteroid amount : ℕ) → Call
  requests : (wallet asteroid amount : ℕ) → (has_locked : Bool) → (locked : ℕ) → Call

unfoldable pub apply : Call → Positions → Positions
apply (homes now w a) p = (set_home_station now w a p).0
apply (restores w o) p = (restore_home_station w o p).0
apply (puts now w a n) p = (stake now w a n p).0
apply (takes w a n) p = (unstake w a n p).0
apply (requests w a n h l) p = (request_unstake w a n h l p).0

-- The positions after a history (newest first).
unfoldable pub after : Positions → List Call → Positions
after p [] = p
after p (x ∷ older) = apply x (after p older)

restore-Books :
    (w : ℕ) (o : Option ℕ) (p : Positions) → Books p → Books (restore_home_station w o p).0
unfolding restore_home_station
restore-Books w none p b = b
restore-Books w (some a) p b =
    change_miner-Books w (λ m. record m { home_station = some a }) p (λ m. refl) b

request-Books :
    (w a n : ℕ) (h : Bool) (l : ℕ) (p : Positions) → Books p → Books (request_unstake w a n h l p).0
unfolding request_unstake
request-Books w a n h l p b = elim (Option-cases (get w p.stakes)) [
  | inl e ↦ rw (request_unstake, e) b
  | inr (ss, e) ↦ elim (Option-cases (find_stake a ss)) [
    | inl f ↦ rw (request_unstake, e, f) b
    | inr (s, f) ↦ rw (request_unstake, e, f) (process_unstake-Books w a (min n s.amount) p b)
  ]
]

apply-Books : (x : Call) (p : Positions) → Books p → Books (apply x p)
unfolding apply unstake
apply-Books (homes now w a) p b = set_home_station-Books now w a p b
apply-Books (restores w o) p b = restore-Books w o p b
apply-Books (puts now w a n) p b = stake-Books now w a n p b
apply-Books (takes w a n) p b = process_unstake-Books w a n p b
apply-Books (requests w a n h l) p b = request-Books w a n h l p b

pub after-Books : (xs : List Call) (p : Positions) → Books p → Books (after p xs)
unfolding after
after-Books [] p b = b
after-Books (x ∷ xs) p b = apply-Books x (after p xs) (after-Books xs p b)

-- Where no asteroid has a stake at the start, then after any stakes, unstakes and changes of home a
-- wallet's total stake is the sum of its records, and an asteroid's total stake in the registry is
-- the sum of the records at it over all wallets.
pub stakes_balance :
    (quarry : Bool) (r : Registry) (xs : List Call) (w a : ℕ)
    → ((b : ℕ) → staked_in b r ≡ 0)
    → let p = after (new_positions quarry r) xs in
      ((miner_of w p).total_stake ≡ amounts (stakes_of w p))
      × (staked_in a p.registry ≡ total (amount_at a) p.stakes)
unfolding new_positions
stakes_balance quarry r xs w a z =
    let b =
      after-Books xs (new_positions quarry r) (record { miner = λ v. refl; asteroid = λ c. z c }) in
    (b.miner w, b.asteroid a)

-- The record of an asteroid after a stake there has at least what was staked.
find-raise :
    (a n : ℕ) (ss : List Stake)
    → holds (λ s. leb n s.amount) (find_stake a (raise a n ss)) ≡ is_some (find_stake a ss)
unfolding find_stake raise
find-raise a n [] = refl
find-raise a n (s ∷ ss) = ground (arith, find-raise a n ss)

find-append :
    (a : ℕ) (ss : List Stake) (x : Stake)
    → find_stake a ss ≡ none
    → is_at a x ≡ true
    → find_stake a (ss ++ (x ∷ [])) ≡ some x
unfolding find_stake
find-append a [] x e h = ground (arith, h)
find-append a (s ∷ ss) x e h = ground (arith, e, h, find-append a ss x)

find-staked_list :
    (now a n : ℕ) (m : Miner) (ss : List Stake)
    → holds (λ s. leb n s.amount) (find_stake a (staked_list now a n m ss)) ≡ true
unfolding staked_list
find-staked_list now a n m ss = elim (Option-cases (find_stake a ss)) [
  | inl e ↦ ground (arith, e, find-append a ss (new_stake now a n m))
  | inr (s, e) ↦ ground (arith, e, find-raise a n ss)
]

-- An unstake of what a record covers leaves the wallet the amounts of before less the unstaked.
unstake_amount :
    (w a b n : ℕ) (p : Positions)
    → holds (λ s. leb n s.amount) (find_stake a (stakes_of w p)) ≡ true
    → amount_at b (stakes_of w (unstake w a n p).0) + (if b == a then n else 0)
      ≡ amount_at b (stakes_of w p)
unfolding unstake process_unstake
unstake_amount w a b n p h = elim (Option-cases (get w p.stakes)) [
  | inl e ↦ ground (arith, e, h)
  | inr (ss, e) ↦ elim (Option-cases (find_stake a ss)) [
    | inl f ↦ ground (arith, e, f, h)
    | inr (s, f) ↦ ground (
      arith,
      e,
      f,
      h,
      get-set w w (lower a (min n s.amount) ss) p.stakes,
      amount_at-lower a b (min n s.amount) ss s f,
    )
  ]
]

stake-registered :
    (now w a n : ℕ) (p : Positions)
    → 1 ≤ n
    → has a p.registry.asteroids ≡ true
    → (stake now w a (pos n) p).0 ≡ put_stake now w a n p
unfolding stake
stake-registered now w a n p k h = ground (arith, k, h)

stakes_of-home_first : (now w a : ℕ) (p : Positions) → (home_first now w a p).stakes ≡ p.stakes
unfolding set_home_station
stakes_of-home_first now w a p = ground arith

stakes_of-put :
    (now w a n : ℕ) (p : Positions)
    → stakes_of w (put_stake now w a n p)
      ≡ staked_list now a n (miner_of w (home_first now w a p)) (stakes_of w p)
unfolding put_stake
stakes_of-put now w a n p =
    let q = home_first now w a p in
    ground (
      arith,
      stakes_of-home_first now w a p,
      get-set w w (staked_list now a n (miner_of w q) (stakes_of w q)) q.stakes,
    )

-- An amount of at least 1 staked at a registered asteroid and unstaked again leaves the wallet with
-- what it had at every asteroid before.
pub unstake-stake :
    (now w a b n : ℕ) (p : Positions)
    → 1 ≤ n
    → has a p.registry.asteroids ≡ true
    → amount_at b (stakes_of w (unstake w a n (stake now w a (pos n) p).0).0)
      ≡ amount_at b (stakes_of w p)
unstake-stake now w a b n p k h =
    let m = miner_of w (home_first now w a p) in
    let q = put_stake now w a n p in
    ground (
      arith,
      stake-registered now w a n p k h,
      stakes_of-put now w a n p,
      find-staked_list now a n m (stakes_of w p),
      amount_at-staked_list now a n b m (stakes_of w p),
      unstake_amount w a b n q,
    )
