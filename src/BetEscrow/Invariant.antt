-- ===== src/BetEscrow/Invariant.antt =====
-- The invariant of the bet ledger: what the references in a pool point to, and that the total of a
-- pool is the sum of its bets.
use astroid_club.Prelude.{
  Bool-cases, [], arith, false, inl, inr, nat_beq_iff, nat_eq, none, refl, some, sym, true, ℕ, ◌<◌,
  ◌==◌, ◌∙◌, ◌∷◌, ◌≡◌, ◌⊎◌,
}
use astroid_club.JsMap.{JsMap, get, set, IsUnique}
use astroid_club.JsMap.Laws.{get-set, set-IsUnique}
use astroid_club.JsMap.Sums.{total, total-set}
use astroid_club.BetEscrow.Resolve.{amount_at}
use astroid_club.BetEscrow.{
  Side, attacker, defender, locked, active, Bet, Pool, Ledger, store, record_bet, with_bet,
}

-- What a reference in a pool's `attackerBets` points to.
pub record IsBetOf (l : Ledger) (raid : ℕ) (p : Pool) (w r : ℕ) : Type 0 where
  pub old : r < l.next
  pub of_raid : (l.objects r).raid_id ≡ raid
  pub of_wallet : (l.objects r).wallet ≡ w
  pub open_bet : p.status ≡ active → (l.objects r).status ≡ locked

pub record PoolSound (l : Ledger) (raid : ℕ) (p : Pool) : Type 0 where
  pub unique : IsUnique p.attacker_bets
  pub bets : (w r : ℕ) → get w p.attacker_bets ≡ some r → IsBetOf l raid p w r
  pub sum : p.total_attacker_bets ≡ total (amount_at l.objects) p.attacker_bets

pub record Sound (l : Ledger) : Type 0 where
  pub unique : IsUnique l.pools
  pub pools : (raid : ℕ) (p : Pool) → get raid l.pools ≡ some p → PoolSound l raid p

-- Two measures that agree on the values of a map have the same total.
pub total-congr {ℓ} :
    {V : Type ℓ} (f g : V → ℕ) (m : JsMap ℕ V)
    → IsUnique m
    → ((k : ℕ) (v : V) → get k m ≡ some v → f v ≡ g v)
    → total f m ≡ total g m
total-congr f g [] u h = refl
total-congr f g ((k, v) ∷ m) u h =
    let here : f v ≡ g v = h k v (ground arith) in
    let rest = total-congr f g m u.1 (λ j w e. h j w (ground (arith, nat_beq_iff j k))) in
    ground (arith, here, rest)

-- A bet that is recorded is a new object, so no pool's bets change.
keeps_bets :
    (l : Ledger) (b : Bet) (raid : ℕ) (p q : Pool) (w r : ℕ)
    → IsBetOf l raid p w r
    → IsBetOf (record_bet b q l) raid p w r
unfolding record_bet
keeps_bets l b raid p q w r i = record {
  old = omega (arith, i.old);
  of_raid = ground (arith, i.old, i.of_raid);
  of_wallet = ground (arith, i.old, i.of_wallet);
  open_bet = λ a. ground (arith, i.old, i.open_bet a);
}

keeps_total :
    (l : Ledger) (b : Bet) (raid : ℕ) (p : Pool)
    → PoolSound l raid p
    → total (amount_at (store l.objects l.next b)) p.attacker_bets ≡ p.total_attacker_bets
keeps_total l b raid p s =
    total-congr (amount_at (store l.objects l.next b)) (amount_at l.objects) p.attacker_bets
      s.unique (λ w r e. ground (arith, (s.bets w r e).old))
    ∙ sym s.sum

keeps_pool :
    (l : Ledger) (b : Bet) (raid : ℕ) (p q : Pool)
    → PoolSound l raid p
    → PoolSound (record_bet b q l) raid p
unfolding record_bet
keeps_pool l b raid p q s = record {
  unique = s.unique;
  bets = λ w r e. keeps_bets l b raid p q w r (s.bets w r e);
  sum = sym (keeps_total l b raid p s);
}

-- The pool that takes a new bet.
joined_pool :
    (l : Ledger) (b : Bet) (side : Side) (p : Pool)
    → PoolSound l b.raid_id p
    → b.status ≡ locked
    → get b.wallet p.attacker_bets ≡ none
    → PoolSound (record_bet b p l) b.raid_id (with_bet side b.wallet l.next b.amount p)
unfolding record_bet
joined_pool l b attacker p s lk missing = record {
  unique = set-IsUnique b.wallet l.next p.attacker_bets s.unique;
  bets = λ w r e. joined w r e (Bool-cases (w == b.wallet));
  sum = ground (
    arith,
    keeps_total l b b.raid_id p s,
    total-set (amount_at (store l.objects l.next b)) b.wallet l.next p.attacker_bets,
  );
}
  where
    joined :
        (w r : ℕ)
        → get w (set b.wallet l.next p.attacker_bets) ≡ some r
        → ((w == b.wallet) ≡ true) ⊎ ((w == b.wallet) ≡ false)
        → IsBetOf (record_bet b p l) b.raid_id (with_bet attacker b.wallet l.next b.amount p) w r
    joined w r e (inl same) =
        let new : r ≡ l.next = ground (arith, e, same, get-set w b.wallet l.next p.attacker_bets) in
        record {
          old = omega arith;
          of_raid = ground (arith, new);
          of_wallet = ground (arith, new, same);
          open_bet = λ a. ground (arith, new, lk);
        }
    joined w r e (inr other) =
        let i : IsBetOf l b.raid_id p w r =
          s.bets w r (ground (arith, e, other, get-set w b.wallet l.next p.attacker_bets)) in
        record {
          old = omega (arith, i.old);
          of_raid = ground (arith, i.old, i.of_raid);
          of_wallet = ground (arith, i.old, i.of_wallet);
          open_bet = λ a. ground (arith, i.old, i.open_bet a);
        }
joined_pool l b defender p s lk missing = keeps_pool l b b.raid_id p p s

-- Placing a bet keeps the ledger sound.
pub record_bet-Sound :
    (l : Ledger) (b : Bet) (p : Pool)
    → Sound l
    → get b.raid_id l.pools ≡ some p
    → b.status ≡ locked
    → get b.wallet p.attacker_bets ≡ none
    → Sound (record_bet b p l)
record_bet-Sound l b p s found lk missing = record {
  unique =
      unfold record_bet in
      set-IsUnique b.raid_id (with_bet b.side b.wallet l.next b.amount p) l.pools s.unique;
  pools = λ raid q e. at raid q e (Bool-cases (raid == b.raid_id));
}
  where
    joined : Pool
    joined = with_bet b.side b.wallet l.next b.amount p

    at :
        (raid : ℕ) (q : Pool)
        → get raid (record_bet b p l).pools ≡ some q
        → ((raid == b.raid_id) ≡ true) ⊎ ((raid == b.raid_id) ≡ false)
        → PoolSound (record_bet b p l) raid q
    at raid q e (inl same) =
        let to_pool : q ≡ joined =
          unfold record_bet in ground (arith, e, same, get-set raid b.raid_id joined l.pools) in
        let to_raid : raid ≡ b.raid_id = ground (arith, same) in
        rw (to_pool, to_raid) (joined_pool l b b.side p (s.pools b.raid_id p found) lk missing)
    at raid q e (inr other) = keeps_pool l b raid q p (
        s.pools raid q
          (unfold record_bet in ground (arith, e, other, get-set raid b.raid_id joined l.pools)))
