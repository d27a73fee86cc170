-- ===== src/BetEscrow/Settlement.antt =====
-- What `resolveRaid` pays out and burns, and that it settles a raid once.
use astroid_club.Prelude.Result.{ok, err}
use astroid_club.Prelude.{
  Bool-cases, Option-cases, [], ap, arith, false, inl, inr, nat_eq, none, refl, some, sym, true, ℕ,
  ◌+◌, ◌==◌, ◌∙◌, ◌≡◌, ◌≢◌, ◌⊎◌,
}
use astroid_club.JsMap.{JsMap, get, set, IsUnique}
use mathlib.Core.Option
use astroid_club.JsMap.Laws.{get-set, set-IsUnique, beq_refl}
use astroid_club.JsMap.Sums.{total}
use astroid_club.BetEscrow.{
  Side, attacker, defender, PoolStatus, active, resolved, Bet, Pool, Ledger, not_accepting,
  pool_not_found, already_resolved, Tally, start_tally, settle_loop, Resolution, conclude,
  resolve_in, resolve_raid, place_bet_in, place_bet,
}
use astroid_club.BetEscrow.Config.{LossSplit, IsWhole}
use astroid_club.BetEscrow.Split.{amount_of, pay_defenders_bound, pay_defenders-total}
use astroid_club.BetEscrow.Resolve.{
  amount_at, settled, SameBet, settle_loop-SameBet, settle_loop-returned, settle_loop-forfeited,
  settle_loop-cuts, settle_loop-status, settle_loop_others, settle_loop-payouts,
}
use astroid_club.BetEscrow.Invariant.{Sound, PoolSound, total-congr}

-- The ledger and the pool that a settlement leaves.
abbrev settled_pool : ℕ → Side → Pool → Pool
settled_pool now side p = record p {
  status = resolved;
  resolved_at = some now;
  winning_side = some side;
}

abbrev tally_of : ℕ → LossSplit → Side → Ledger → Pool → Tally
tally_of now split side l p = settle_loop now side split p.attacker_bets (start_tally l.objects)

abbrev settled_ledger : ℕ → LossSplit → ℕ → Side → Ledger → Pool → Ledger
settled_ledger now split raid side l p = record l {
  pools = set raid (settled_pool now side p) l.pools;
  objects = (tally_of now split side l p).objects;
}

resolve_raid_lem :
    (now : ℕ) (split : LossSplit) (raid : ℕ) (side : Side) (stakes : JsMap ℕ ℕ) (l : Ledger)
    (p : Pool)
    → get raid l.pools ≡ some p
    → p.status ≡ active
    → resolve_raid now split raid side stakes l
      ≡ ok (
        settled_ledger now split raid side l p,
        conclude raid side (tally_of now split side l p) stakes,
      )
unfolding resolve_raid
resolve_raid_lem now split raid side stakes l p found live = rw (found, resolve_in, live)

-- A raid that the defenders win settles: what is burned, what is recirculated and what the defenders
-- get make up the attackers' bets exactly, the payouts add up to what the defenders get, and nothing
-- is returned.
pub resolve_conserves :
    (now : ℕ) (split : LossSplit) (raid : ℕ) (stakes : JsMap ℕ ℕ) (l : Ledger) (p : Pool)
    → Sound l
    → get raid l.pools ≡ some p
    → p.status ≡ active
    → IsWhole split
    → IsUnique stakes
    → (l' : Ledger) × (res : Resolution) × (resolve_raid now split raid defender stakes l
        ≡ ok (l', res))
      × (res.burned + res.recirculated + res.distributed_to_defenders ≡ p.total_attacker_bets)
      × (total amount_of res.defender_payouts ≡ res.distributed_to_defenders)
      × (res.returned_to_winners ≡ 0)
unfolding conclude
resolve_conserves now split raid stakes l p s found live whole u =
    let t = tally_of now split defender l p in
    let sums = settle_loop-forfeited now split p.attacker_bets (start_tally l.objects) in
    let cuts =
      settle_loop-cuts now split p.attacker_bets (start_tally l.objects) (omega (arith, whole)) in
    let bound = pay_defenders_bound t.defender_target stakes in
    (
      settled_ledger now split raid defender l p,
      conclude raid defender t stakes,
      resolve_raid_lem now split raid defender stakes l p found live,
      omega (arith, sums, cuts, bound, (s.pools raid p found).sum),
      pay_defenders-total t.defender_target stakes u,
      omega (arith, sums),
    )

-- A raid that the attackers win settles: every bettor gets his own bet back, these make up the
-- attackers' bets, and nothing is burned, recirculated or paid to a defender.
pub resolve_returns :
    (now : ℕ) (split : LossSplit) (raid : ℕ) (stakes : JsMap ℕ ℕ) (l : Ledger) (p : Pool)
    → Sound l
    → get raid l.pools ≡ some p
    → p.status ≡ active
    → (l' : Ledger) × (res : Resolution) × (resolve_raid now split raid attacker stakes l
        ≡ ok (l', res))
      × (res.returned_to_winners ≡ p.total_attacker_bets)
      × ((w : ℕ)
          → get w res.winner_payouts ≡ Option.map (amount_at l.objects) (get w p.attacker_bets))
      × (res.burned + res.recirculated + res.distributed_to_defenders ≡ 0)
      × (res.defender_payouts ≡ [])
unfolding conclude
resolve_returns now split raid stakes l p s found live =
    let t = tally_of now split attacker l p in
    let pool = s.pools raid p found in
    let paid = λ (w : ℕ).
      settle_loop-payouts now split p.attacker_bets (start_tally l.objects) w pool.unique in
    (
      settled_ledger now split raid attacker l p,
      conclude raid attacker t stakes,
      resolve_raid_lem now split raid attacker stakes l p found live,
      omega
          (arith, settle_loop-returned now split p.attacker_bets (start_tally l.objects), pool.sum),
      λ w. ground (arith, paid w),
      refl,
      refl,
    )

PoolStatus-cases : (st : PoolStatus) → (st ≡ active) ⊎ (st ≡ resolved)
PoolStatus-cases active = inl refl
PoolStatus-cases resolved = inr refl

-- A settlement that goes through found an active pool, and left the ledger described above.
pub resolve_raid_ok :
    (now : ℕ) (split : LossSplit) (raid : ℕ) (side : Side) (stakes : JsMap ℕ ℕ) (l l' : Ledger)
    (res : Resolution) (p : Pool)
    → get raid l.pools ≡ some p
    → resolve_raid now split raid side stakes l ≡ ok (l', res)
    → (p.status ≡ active) × (l' ≡ settled_ledger now split raid side l p)
unfolding resolve_raid
resolve_raid_ok now split raid side stakes l l' res p found done =
    elim (PoolStatus-cases p.status) [
      | inl live ↦
          (let lem = resolve_raid_lem now split raid side stakes l p found live in (live, cc))
      | inr over ↦
          (let refused : resolve_raid now split raid side stakes l ≡ err already_resolved =
              rw (found, resolve_in, over) in
            cc)
    ]

pub resolve_raid_missing :
    (now : ℕ) (split : LossSplit) (raid : ℕ) (side : Side) (stakes : JsMap ℕ ℕ) (l l' : Ledger)
    (res : Resolution)
    → get raid l.pools ≡ none
    → resolve_raid now split raid side stakes l ≢ ok (l', res)
unfolding resolve_raid
resolve_raid_missing now split raid side stakes l l' res missing done =
    let refused : resolve_raid now split raid side stakes l ≡ err pool_not_found =
      rw (missing, resolve_in) in
    cc

-- A raid that was settled, with bets or without, can neither be settled again nor take another bet,
-- whatever the arguments; and every bet of its attackers, where there are any, is won or lost, as its
-- side fared.
pub resolve_once :
    (now : ℕ) (split : LossSplit) (raid : ℕ) (side : Side) (stakes : JsMap ℕ ℕ) (l l' : Ledger)
    (res : Resolution) (p : Pool)
    → get raid l.pools ≡ some p
    → resolve_raid now split raid side stakes l ≡ ok (l', res)
    → ((t : ℕ) (again : Side) (ss : JsMap ℕ ℕ)
        → resolve_raid t split raid again ss l' ≡ err already_resolved)
      × ((t v a n : ℕ) (on : Side) (tx : ℕ) → place_bet t raid v a n on tx l' ≡ err not_accepting)
      × ((w : ℕ)
          → Option.map (λ r. (l'.objects r).status) (get w p.attacker_bets)
            ≡ Option.map (λ r. settled side) (get w p.attacker_bets))
unfolding resolve_raid place_bet
resolve_once now split raid side stakes l l' res p found done =
    let (live, after) = resolve_raid_ok now split raid side stakes l l' res p found done in
    let pool : get raid l'.pools ≡ some (settled_pool now side p) =
      rw after
        (ground (arith, beq_refl raid, get-set raid raid (settled_pool now side p) l.pools)) in
    (
      λ t again ss. rw (pool, resolve_in),
      λ t v a n on tx. rw (pool, place_bet_in),
      λ w. elim (Option-cases (get w p.attacker_bets)) [
        | inl e ↦ rw e refl
        | inr (r, e) ↦
            rw (e, after)
              (ap some
                (settle_loop-status now side split p.attacker_bets (start_tally l.objects) w r e))
      ],
    )

-- Settling keeps the ledger sound: only the bets of that pool are touched, and their amounts are not.
pub resolve_raid-Sound :
    (now : ℕ) (split : LossSplit) (raid : ℕ) (side : Side) (l : Ledger) (p : Pool)
    → Sound l
    → get raid l.pools ≡ some p
    → Sound (settled_ledger now split raid side l p)
resolve_raid-Sound now split raid side l p s found = record {
  unique = set-IsUnique raid (settled_pool now side p) l.pools s.unique;
  pools = λ j q e. at j q e (Bool-cases (j == raid));
}
  where
    l' : Ledger
    l' = settled_ledger now split raid side l p

    same : (r : ℕ) → SameBet (l.objects r) (l'.objects r)
    same r = settle_loop-SameBet now side split p.attacker_bets (start_tally l.objects) r

    sums :
        (m : JsMap ℕ ℕ)
        → IsUnique m
        → total (amount_at l'.objects) m ≡ total (amount_at l.objects) m
    sums m u =
        total-congr (amount_at l'.objects) (amount_at l.objects) m u (λ w r e. (same r).amount)

    clash :
        (j v r : ℕ)
        → ((j == raid) ≡ false)
        → get v p.attacker_bets ≡ some r
        → (l.objects r).raid_id ≡ j
        → ⊥
    clash j v r miss g other =
        let here = ((s.pools raid p found).bets v r g).of_raid in ground (arith, here, other, miss)

    at :
        (j : ℕ) (q : Pool)
        → get j l'.pools ≡ some q
        → ((j == raid) ≡ true) ⊎ ((j == raid) ≡ false)
        → PoolSound l' j q
    at j q e (inl hit) =
        let to_pool : q ≡ settled_pool now side p =
          ground (arith, e, hit, get-set j raid (settled_pool now side p) l.pools) in
        let to_raid : j ≡ raid = ground (arith, hit) in
        let o = s.pools raid p found in
        rw (to_pool, to_raid)
          (record {
            unique = o.unique;
            bets = λ w r f. record {
              old = (o.bets w r f).old;
              of_raid = (same r).raid_id ∙ (o.bets w r f).of_raid;
              of_wallet = (same r).wallet ∙ (o.bets w r f).of_wallet;
              open_bet = λ a. cc;
            };
            sum = o.sum ∙ sym (sums p.attacker_bets o.unique);
          })
    at j q e (inr miss) =
        let o =
          s.pools j q (ground (arith, e, miss, get-set j raid (settled_pool now side p) l.pools)) in
        record {
          unique = o.unique;
          bets = λ w r f. record {
            old = (o.bets w r f).old;
            of_raid = (same r).raid_id ∙ (o.bets w r f).of_raid;
            of_wallet = (same r).wallet ∙ (o.bets w r f).of_wallet;
            open_bet = λ a.
                ap (λ (b : Bet). b.status)
                  (settle_loop_others now side split p.attacker_bets (start_tally l.objects) r
                    (s.pools raid p found).unique
                    (λ v g. clash j v r miss g (o.bets w r f).of_raid))
                ∙ (o.bets w r f).open_bet a;
          };
          sum = o.sum ∙ sym (sums q.attacker_bets o.unique);
        }
