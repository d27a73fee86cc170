-- ===== src/BetEscrow/Queries.antt =====
-- The three queries about a wallet's locked bets agree.
use astroid_club.Prelude.{
  All, Bool, List, [], arith, false, get_or, nat_eq, not, refl, sum_by, true, ℕ, ◌+◌, ◌∷◌, ◌≡◌,
}
use astroid_club.JsMap.{JsSet, get}
use astroid_club.BetEscrow.{
  BetId, bet_id_eq, locked, Bet, Ledger, bet_of, any_locked, sum_locked, locked_amount,
  collect_locked, has_locked_bets, get_locked_bet_amount, get_active_bets,
}

abbrev pub bet_amount : Bet → ℕ
bet_amount b = b.amount

abbrev pub is_empty : List Bet → Bool
is_empty [] = true
is_empty (b ∷ bs) = false

sum_locked-collect :
    (l : Ledger) (ids : JsSet BetId) (acc : ℕ)
    → sum_locked l ids acc ≡ acc + sum_by bet_amount (collect_locked l ids)
unfolding sum_locked collect_locked
sum_locked-collect l [] acc = omega arith
sum_locked-collect l ((id, x) ∷ ids) acc =
    ground (arith, sum_locked-collect l ids (acc + locked_amount (bet_of l id)))

any_locked-collect :
    (l : Ledger) (ids : JsSet BetId) → any_locked l ids ≡ not (is_empty (collect_locked l ids))
unfolding any_locked collect_locked
any_locked-collect l [] = refl
any_locked-collect l ((id, x) ∷ ids) = ground (arith, any_locked-collect l ids)

collect_locked-locked :
    (l : Ledger) (ids : JsSet BetId) → All (λ b. b.status ≡ locked) (collect_locked l ids)
unfolding collect_locked
collect_locked-locked l [] = tt
collect_locked-locked l ((id, x) ∷ ids) = ground (arith, collect_locked-locked l ids)

-- The amount that a wallet has locked is the sum of its active bets, it has locked bets exactly where
-- it has an active one, and every active bet is locked.
pub locked_queries_agree :
    (w : ℕ) (l : Ledger)
    → (get_locked_bet_amount w l ≡ sum_by bet_amount (get_active_bets w l))
      × (has_locked_bets w l ≡ not (is_empty (get_active_bets w l)))
      × All (λ b. b.status ≡ locked) (get_active_bets w l)
unfolding get_locked_bet_amount has_locked_bets get_active_bets
locked_queries_agree w l =
    let ids = get_or (get w l.bets_by_wallet) [] in
    (
      omega (arith, sum_locked-collect l ids 0),
      any_locked-collect l ids,
      collect_locked-locked l ids,
    )
