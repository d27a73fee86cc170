-- ===== src/BetEscrow/History.antt =====
-- The ledger over any history of calls.
use astroid_club.Prelude.Result.{Result, ok, err}
use astroid_club.Prelude.{
  Bool-cases, List, Option-cases, [], arith, false, inl, inr, nat_eq, none, refl, some, true, ℕ,
  ◌==◌, ◌∷◌, ◌≡◌, ◌⊎◌,
}
use astroid_club.JsMap.{JsMap, get, set, has}
use astroid_club.JsMap.Laws.{get-set, set-IsUnique}
use astroid_club.BetEscrow.{
  Side, active, Bet, Pool, Ledger, Error, new_bet, create_raid_pool, place_bet, resolve_raid,
  cleanup_resolved_pools,
}
use astroid_club.BetEscrow.Config.{LossSplit}
use astroid_club.BetEscrow.Placing.{place_bet_ok}
use astroid_club.BetEscrow.Invariant.{Sound, PoolSound, record_bet-Sound}
use astroid_club.BetEscrow.Settlement.{resolve_raid_ok, resolve_raid-Sound, resolve_raid_missing}
use astroid_club.BetEscrow.Cleanup.{cleanup-Sound}

pub data Call : Type 0 where
  creates : (now raid target source : ℕ) → Call
  places : (now raid wallet asteroid amount : ℕ) (side : Side) (tx : ℕ) → Call
  resolves : (now : ℕ) (split : LossSplit) (raid : ℕ) (side : Side) (stakes : JsMap ℕ ℕ) → Call
  cleans : (now max_age : ℕ) → Call

-- A call that throws leaves the ledger as it was.
abbrev pub after {ℓ} : {A : Type ℓ} → Ledger → Result Error (Ledger × A) → Ledger
after l (ok (l', a)) = l'
after l (err e) = l

unfoldable pub step : Call → Ledger → Ledger
step (creates now raid target source) l = after l (create_raid_pool now raid target source l)
step (places now raid w a n side tx) l = after l (place_bet now raid w a n side tx l)
step (resolves now split raid side stakes) l = after l (resolve_raid now split raid side stakes l)
step (cleans now max_age) l = (cleanup_resolved_pools now max_age l).0

unfoldable pub run : List Call → Ledger → Ledger
run [] l = l
run (c ∷ cs) l = run cs (step c l)

-- A result and what it is.
Result-cases {ℓ} :
    {A : Type ℓ} (r : Result Error (Ledger × A))
    → ((e : Error) × (r ≡ err e)) ⊎ ((l' : Ledger) × (a : A) × (r ≡ ok (l', a)))
Result-cases (ok (l', a)) = inr (l', a, refl)
Result-cases (err e) = inl (e, refl)

-- The pool that `createRaidPool` adds.
abbrev fresh_pool : ℕ → ℕ → ℕ → ℕ → Pool
fresh_pool now raid target source = record {
  raid_id = raid;
  target = target;
  source = source;
  attacker_bets = [];
  total_attacker_bets = 0;
  status = active;
  created_at = now;
  resolved_at = none;
  winning_side = none;
}

set_fresh-Sound :
    (now raid target source : ℕ) (l : Ledger)
    → Sound l
    → Sound (record l { pools = set raid (fresh_pool now raid target source) l.pools })
set_fresh-Sound now raid target source l s = record {
  unique = set-IsUnique raid (fresh_pool now raid target source) l.pools s.unique;
  pools = λ j q e. at j q e (Bool-cases (j == raid));
}
  where
    l' : Ledger
    l' = record l { pools = set raid (fresh_pool now raid target source) l.pools }

    at :
        (j : ℕ) (q : Pool)
        → get j l'.pools ≡ some q
        → ((j == raid) ≡ true) ⊎ ((j == raid) ≡ false)
        → PoolSound l' j q
    at j q e (inl hit) =
        let new : q ≡ fresh_pool now raid target source =
          ground (arith, e, hit, get-set j raid (fresh_pool now raid target source) l.pools) in
        rw new (record { unique = tt; bets = λ w r f. cc; sum = refl })
    at j q e (inr miss) =
        let o =
          s.pools j q
            (ground (arith, e, miss, get-set j raid (fresh_pool now raid target source) l.pools)) in
        record {
          unique = o.unique;
          bets = λ w r f.
              let i = o.bets w r f in
              record {
                old = i.old;
                of_raid = i.of_raid;
                of_wallet = i.of_wallet;
                open_bet = i.open_bet;
              };
          sum = o.sum;
        }

creates-Sound :
    (now raid target source : ℕ) (l : Ledger)
    → Sound l
    → Sound (after l (create_raid_pool now raid target source l))
unfolding create_raid_pool
creates-Sound now raid target source l s = elim (Bool-cases (has raid l.pools)) [
  | inl e ↦ rw e s
  | inr e ↦ rw e (set_fresh-Sound now raid target source l s)
]

step-Sound : (c : Call) (l : Ledger) → Sound l → Sound (step c l)
unfolding step
step-Sound (creates now raid target source) l s = creates-Sound now raid target source l s
step-Sound (places now raid w a n side tx) l s =
    elim (Result-cases (place_bet now raid w a n side tx l)) [
      | inl (e, refused) ↦ rw refused s
      | inr (l', b, done) ↦
          (let (p, found, live, missing, eq) = place_bet_ok now raid w a n side tx l l' b done in
            rw (done, eq)
              (record_bet-Sound l (new_bet now raid w a n side tx) p s found refl missing))
    ]
step-Sound (resolves now split raid side stakes) l s =
    elim (Result-cases (resolve_raid now split raid side stakes l)) [
      | inl (e, refused) ↦ rw refused s
      | inr (l', res, done) ↦ elim (Option-cases (get raid l.pools)) [
        | inl missing ↦
            absurd (resolve_raid_missing now split raid side stakes l l' res missing done)
        | inr (p, found) ↦
            (let eq = (resolve_raid_ok now split raid side stakes l l' res p found done).1 in
              rw (done, eq) (resolve_raid-Sound now split raid side l p s found))
      ]
    ]
step-Sound (cleans now max_age) l s = cleanup-Sound now max_age l s

-- Whatever is called, and in whatever order, the ledger stays sound: the total of a pool is the sum
-- of its bets, its bets are its own, each under its wallet, and they are locked while it is active.
pub run-Sound : (cs : List Call) (l : Ledger) → Sound l → Sound (run cs l)
unfolding run
run-Sound [] l s = s
run-Sound (c ∷ cs) l s = run-Sound cs (step c l) (step-Sound c l s)

-- The ledger of a server that starts.
unfoldable pub empty_ledger : (ℕ → Bet) → Ledger
empty_ledger o = record { pools = []; bets_by_wallet = []; bets = []; objects = o; next = 0 }

pub empty_ledger-Sound : (o : ℕ → Bet) → Sound (empty_ledger o)
unfolding empty_ledger
empty_ledger-Sound o = record { unique = tt; pools = λ raid p e. cc }
