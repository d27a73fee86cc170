-- ===== src/BetEscrow/Tests.antt =====
-- Runs of the bet escrow, and its theorems at concrete ledgers.
use astroid_club.Prelude.Result.{Result, ok, err}
use astroid_club.Prelude.{
  All, List, [], nat_eq, none, not, refl, some, sum_by, ℕ, ◌+◌, ◌↔◌, ◌∷◌, ◌≡◌,
}
use mathlib.Core.Option
use astroid_club.JsMap.{JsMap, get}
use astroid_club.JsMap.Sums.{total}
use astroid_club.BetEscrow.{
  Side, attacker, defender, locked, lost, active, Bet, Pool, Ledger, not_accepting, already_bet,
  already_resolved, Resolution, create_raid_pool, new_bet, place_bet, resolve_raid, settle_loop,
  settle_bet, conclude, has_locked_bets, get_locked_bet_amount, get_active_bets,
  cleanup_resolved_pools, Error, resolved,
}
use astroid_club.BetEscrow.Config.{default_loss_split}
use astroid_club.BetEscrow.Split.{amount_of, pay_defenders}
use astroid_club.BetEscrow.Resolve.{amount_at}
use astroid_club.BetEscrow.Invariant.{Sound}
use astroid_club.BetEscrow.Settlement.{resolve_conserves, resolve_returns, resolve_once}
use astroid_club.BetEscrow.Cleanup.{ResolvedBefore, cleanup_exact}
use astroid_club.BetEscrow.Queries.{bet_amount, is_empty, locked_queries_agree}
use astroid_club.BetEscrow.History.{
  Call, creates, places, resolves, cleans, after, step, run, run-Sound, empty_ledger,
  empty_ledger-Sound,
}

-- An object that no reference points to.
abbrev nobody : ℕ → Bet
nobody r = new_bet 0 0 0 0 0 attacker 0

-- Two wallets attack raid 7; a third bets on the defenders.
abbrev opening : List Call
opening =
    creates 10 7 1 2
    ∷ places 11 7 101 2 1001 attacker 0
    ∷ places 12 7 102 2 500 attacker 0
    ∷ places 13 7 103 1 40 defender 0
    ∷ []

opened : Ledger
unfolding run step create_raid_pool place_bet empty_ledger
opened = run opening (empty_ledger nobody)

opened-Sound : Sound opened
unfolding opened
opened-Sound = run-Sound opening (empty_ledger nobody) (empty_ledger-Sound nobody)

abbrev the_pool : Pool
the_pool = record {
  raid_id = 7;
  target = 1;
  source = 2;
  attacker_bets = (101, 0) ∷ (102, 1) ∷ [];
  total_attacker_bets = 1501;
  status = active;
  created_at = 10;
  resolved_at = none;
  winning_side = none;
}

found : get 7 opened.pools ≡ some the_pool
unfolding opened
found = refl

abbrev stakes : JsMap ℕ ℕ
stakes = (201, 300) ∷ (202, 100) ∷ (203, 0) ∷ []

abbrev summary : Result Error (Ledger × Resolution) → List ℕ
summary (ok (l, r)) =
    r.burned ∷ r.recirculated ∷ r.distributed_to_defenders ∷ r.returned_to_winners ∷ []
summary (err e) = []

defenders_win :
    summary (resolve_raid 20 default_loss_split 7 defender stakes opened) ≡ 601 ∷ 600 ∷ 300 ∷ 0 ∷ []
unfolding opened resolve_raid settle_loop settle_bet conclude pay_defenders
defenders_win = refl

second_bet_refused : place_bet 14 7 101 2 5 attacker 0 opened ≡ err already_bet
unfolding opened place_bet
second_bet_refused = refl

resolve_conserves_example :
    (l' : Ledger) × (res : Resolution) × (resolve_raid 20 default_loss_split 7 defender stakes
        opened
      ≡ ok (l', res))
    × (res.burned + res.recirculated + res.distributed_to_defenders ≡ 1501)
    × (total amount_of res.defender_payouts ≡ res.distributed_to_defenders)
    × (res.returned_to_winners ≡ 0)
resolve_conserves_example =
    resolve_conserves 20 default_loss_split 7 stakes opened the_pool opened-Sound found refl refl
      (refl, (refl, (refl, tt)))

resolve_returns_example :
    (l' : Ledger) × (res : Resolution) × (resolve_raid 20 default_loss_split 7 attacker stakes
        opened
      ≡ ok (l', res))
    × (res.returned_to_winners ≡ 1501)
    × ((w : ℕ)
        → get w res.winner_payouts
          ≡ Option.map (amount_at opened.objects) (get w the_pool.attacker_bets))
    × (res.burned + res.recirculated + res.distributed_to_defenders ≡ 0)
    × (res.defender_payouts ≡ [])
resolve_returns_example =
    resolve_returns 20 default_loss_split 7 stakes opened the_pool opened-Sound found refl

settled_ledger : Ledger
unfolding opened
settled_ledger = after opened (resolve_raid 20 default_loss_split 7 defender stakes opened)

the_resolution : Resolution
unfolding conclude
the_resolution = record {
  raid_id = 7;
  winning_side = defender;
  burned = 601;
  returned_to_winners = 0;
  distributed_to_defenders = 300;
  recirculated = 600;
  winner_payouts = [];
  defender_payouts = (201, 225) ∷ (202, 75) ∷ [];
}

resolve_once_example :
    ((t : ℕ) (again : Side) (ss : JsMap ℕ ℕ)
      → resolve_raid t default_loss_split 7 again ss settled_ledger ≡ err already_resolved)
    × ((t v a n : ℕ) (on : Side) (tx : ℕ)
        → place_bet t 7 v a n on tx settled_ledger ≡ err not_accepting)
    × ((w : ℕ)
        → Option.map (λ r. (settled_ledger.objects r).status) (get w the_pool.attacker_bets)
          ≡ Option.map (λ r. lost) (get w the_pool.attacker_bets))
unfolding settled_ledger the_resolution resolve_raid settle_loop settle_bet conclude pay_defenders
resolve_once_example =
    resolve_once 20 default_loss_split 7 defender stakes opened settled_ledger the_resolution
      the_pool found refl

run-Sound_example :
    Sound (
      run (resolves 20 default_loss_split 7 attacker stakes ∷ cleans 90000000 86400000 ∷ []) opened)
run-Sound_example =
    run-Sound (resolves 20 default_loss_split 7 attacker stakes ∷ cleans 90000000 86400000 ∷ [])
      opened opened-Sound

-- The pool as the settlement leaves it, which is gone after the window.
abbrev settled_pool : Pool
settled_pool = record the_pool {
  status = resolved;
  resolved_at = some 20;
  winning_side = some defender;
}

cleanup_exact_example :
    (get 7 (cleanup_resolved_pools 90000000 86400000 settled_ledger).0.pools ≡ some settled_pool)
    ↔ ((get 7 settled_ledger.pools ≡ some settled_pool)
        × ¬ ResolvedBefore 90000000 86400000 settled_pool)
unfolding settled_ledger resolve_raid settle_loop settle_bet
cleanup_exact_example = cleanup_exact 90000000 86400000 7 settled_pool settled_ledger (refl, tt)

locked_queries_agree_example :
    (get_locked_bet_amount 103 opened ≡ sum_by bet_amount (get_active_bets 103 opened))
    × (has_locked_bets 103 opened ≡ not (is_empty (get_active_bets 103 opened)))
    × All (λ (b : Bet). b.status ≡ locked) (get_active_bets 103 opened)
locked_queries_agree_example = locked_queries_agree 103 opened
