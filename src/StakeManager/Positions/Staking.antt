-- ===== src/StakeManager/Positions/Staking.antt =====
-- Staking and unstaking keep the books, whatever the order of the calls.
use astroid_club.Prelude.{
  Bool-cases, List, Option-cases, arith, inl, inr, min, nat_eq, some, true, ℕ, ◌+◌, ◌-◌, ◌==◌, ◌≡◌,
  ◌≤◌,
}
use astroid_club.Prelude.Int.{ℤ, pos, negsuc}
use astroid_club.JsMap.{get, has, set}
use astroid_club.JsMap.Laws.{get-set}
use astroid_club.JsMap.Sums.{total, total-set, part-le-total}
use astroid_club.AsteroidRegistry.Miners.{update_asteroid_stake, shifted}
use astroid_club.StakeManager.Positions.{
  Stake, Positions, miner_of, change_miner, set_home_station, find_stake, lower, stakes_of,
  home_first, staked_list, put_stake, stake, minus, process_unstake,
}
use astroid_club.StakeManager.Positions.Books.{
  amount_at, amounts-lower, amount_at-lower, amounts-staked_list, amount_at-staked_list, staked_in,
  staked_in-update, Books, set_home_station-Books,
}

home_first-Books : (now w a : ℕ) (p : Positions) → Books p → Books (home_first now w a p)
home_first-Books now w a p b = elim (Option-cases (miner_of w p).home_station) [
  | inl e ↦ rw (home_first, e) (set_home_station-Books now w a p b)
  | inr (h, e) ↦ rw (home_first, e) b
]

pub home_first-registry :
    (now w a : ℕ) (p : Positions) → (home_first now w a p).registry ≡ p.registry
unfolding set_home_station
home_first-registry now w a p = ground arith

-- A list put in the place of a wallet's, and the sum at an asteroid.
total-put :
    (b w : ℕ) (ss : List Stake) (p : Positions)
    → total (amount_at b) (set w ss p.stakes) + amount_at b (stakes_of w p)
      ≡ total (amount_at b) p.stakes + amount_at b ss
total-put b w ss p = elim (Option-cases (get w p.stakes)) [
  | inl e ↦ ground (arith, e, total-set (amount_at b) w ss p.stakes)
  | inr (old, e) ↦ ground (arith, e, total-set (amount_at b) w ss p.stakes)
]

listed-le-total :
    (b w : ℕ) (p : Positions) → amount_at b (stakes_of w p) ≤ total (amount_at b) p.stakes
listed-le-total b w p = elim (Option-cases (get w p.stakes)) [
  | inl e ↦ ground (arith, e)
  | inr (old, e) ↦ ground (arith, e, part-le-total (amount_at b) w p.stakes)
]

-- What a stake does to a state whose home station is set.
added : ℕ → ℕ → ℕ → ℕ → Positions → Positions
unfolding staked_list
added now w a n q = record (change_miner w (λ m. record m { total_stake = m.total_stake + n }) q) {
  stakes = set w (staked_list now a n (miner_of w q) (stakes_of w q)) q.stakes;
  registry = update_asteroid_stake a (pos n) q.registry;
}

added-Books :
    (now w a n : ℕ) (q : Positions)
    → has a q.registry.asteroids ≡ true
    → Books q
    → Books (added now w a n q)
unfolding added
added-Books now w a n q h b =
    let ss = staked_list now a n (miner_of w q) (stakes_of w q) in
    record {
      miner = λ v. ground (
        arith,
        b.miner v,
        get-set v w (record (miner_of w q) { total_stake = (miner_of w q).total_stake + n })
            q.miners,
        get-set v w ss q.stakes,
        amounts-staked_list now a n (miner_of w q) (stakes_of w q),
      );
      asteroid = λ c. ground (
        arith,
        h,
        b.asteroid c,
        staked_in-update a c (pos n) q.registry,
        total-put c w ss q,
        amount_at-staked_list now a n c (miner_of w q) (stakes_of w q),
      );
    }

pub put_stake-Books :
    (now w a n : ℕ) (p : Positions)
    → has a p.registry.asteroids ≡ true
    → Books p
    → Books (put_stake now w a n p)
unfolding put_stake added
put_stake-Books now w a n p h b =
    let q = home_first now w a p in
    added-Books now w a n q (rw (home_first-registry now w a p) h) (home_first-Books now w a p b)

pub stake-Books : (now w a : ℕ) (n : ℤ) (p : Positions) → Books p → Books (stake now w a n p).0
unfolding stake
stake-Books now w a (negsuc n) p b = b
stake-Books now w a (pos n) p b = elim (Bool-cases (n == 0)) [
  | inl z ↦ rw (stake, z) b
  | inr nz ↦ elim (Bool-cases (has a p.registry.asteroids)) [
    | inl h ↦ rw (stake, nz, h) (put_stake-Books now w a n p h b)
    | inr h ↦ rw (stake, nz, h) b
  ]
]

shifted-minus : (k n : ℕ) → shifted k (minus n) ≡ k - n
shifted-minus k n = ground arith

-- What an unstake does where there is a record.
taken_off : ℕ → ℕ → ℕ → List Stake → Positions → Positions
unfolding lower
taken_off w a e ss p =
    record (change_miner w (λ m. record m { total_stake = m.total_stake - e }) p) {
      stakes = set w (lower a e ss) p.stakes;
      registry = update_asteroid_stake a (minus e) p.registry;
    }

taken_off-Books :
    (w a e : ℕ) (ss : List Stake) (s : Stake) (p : Positions)
    → get w p.stakes ≡ some ss
    → find_stake a ss ≡ some s
    → e ≤ s.amount
    → Books p
    → Books (taken_off w a e ss p)
unfolding taken_off
taken_off-Books w a e ss s p g f h b = record {
  miner = λ v. ground (
    arith,
    g,
    b.miner v,
    get-set v w (record (miner_of w p) { total_stake = (miner_of w p).total_stake - e }) p.miners,
    get-set v w (lower a e ss) p.stakes,
    amounts-lower a e ss s f h,
  );
  asteroid = λ c. ground (
    arith,
    g,
    b.asteroid c,
    shifted-minus (staked_in a p.registry) e,
    staked_in-update a c (minus e) p.registry,
    total-put c w (lower a e ss) p,
    amount_at-lower a c e ss s f h,
    listed-le-total c w p,
  );
}

pub process_unstake-Books :
    (w a n : ℕ) (p : Positions) → Books p → Books (process_unstake w a n p).0
unfolding process_unstake taken_off
process_unstake-Books w a n p b = elim (Option-cases (get w p.stakes)) [
  | inl e ↦ rw (process_unstake, e) b
  | inr (ss, e) ↦ elim (Option-cases (find_stake a ss)) [
    | inl f ↦ rw (process_unstake, e, f) b
    | inr (s, f) ↦
        rw (process_unstake, e, f) (taken_off-Books w a (min n s.amount) ss s p e f (omega arith) b)
  ]
]
