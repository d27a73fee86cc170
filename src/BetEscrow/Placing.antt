-- ===== src/BetEscrow/Placing.antt =====
-- When `createRaidPool` and `placeBet` go through, and what they refuse.
use astroid_club.Prelude.Result.{ok}
use astroid_club.Prelude.{Option, arith, nat_eq, none, refl, some, ℕ, ◌≡◌}
use astroid_club.JsMap.{get}
use astroid_club.BetEscrow.{
  Side, active, Bet, Pool, Ledger, new_bet, record_bet, place_bet_in, place_bet,
}

place_bet_in_ok :
    (b c : Bet) (l l' : Ledger) (o : Option Pool)
    → place_bet_in b l o ≡ ok (l', c)
    → (p : Pool) × (o ≡ some p)
      × (p.status ≡ active)
      × (get b.wallet p.attacker_bets ≡ none)
      × (l' ≡ record_bet b p l)
unfolding place_bet_in
place_bet_in_ok b c l l' none h = cc
place_bet_in_ok b c l l' (some p) h = (p, refl, ground arith, ground arith, ground arith)

-- A bet that goes through found an active pool in which its wallet had no bet, and the ledger is the
-- old one with the bet recorded.
pub place_bet_ok :
    (now raid w a n : ℕ) (side : Side) (tx : ℕ) (l l' : Ledger) (c : Bet)
    → place_bet now raid w a n side tx l ≡ ok (l', c)
    → (p : Pool) × (get raid l.pools ≡ some p)
      × (p.status ≡ active)
      × (get w p.attacker_bets ≡ none)
      × (l' ≡ record_bet (new_bet now raid w a n side tx) p l)
unfolding place_bet
place_bet_ok now raid w a n side tx l l' c h =
    place_bet_in_ok (new_bet now raid w a n side tx) c l l' (get raid l.pools) h
