-- ===== src/BetEscrow.antt =====
-- server/game/bet-escrow.ts: the in-memory ledger of the bets on raids. Wallets, raids and
-- asteroids are opaque keys; amounts and basis points are whole numbers; the clock is an argument.
-- The bet objects are shared between the ledger and the pools, so they live in a store: `bets` and
-- `attacker_bets` hold references to it.
pub mod Split
pub mod Config
pub mod Placing
pub mod Invariant
pub mod Resolve
pub mod Settlement
pub mod Cleanup
pub mod Queries
pub mod History
mod Tests
use astroid_club.Prelude.Result.{Result, ok, err}
use astroid_club.Prelude.{
  All, Bool, Bool-cases, Eq, List, Option, Option-cases, [], ap, arith, false, get_or, holds,
  if◌then◌else◌, inl, inr, is_some, leb, length, length-append, ltb, map, max, min, nat_beq_iff,
  nat_eq, none, not, refl, some, subst, suc, sum_by, sum_by-append, sym, true, zero, ℕ, ◌%◌, ◌&&◌,
  ◌*◌, ◌++◌, ◌+◌, ◌-◌, ◌/◌, ◌<◌, ◌==◌, ◌||◌, ◌↔◌, ◌∙◌, ◌∷◌, ◌≡◌, ◌≢◌, ◌≤◌, ◌⊎◌,
}
use astroid_club.JsMap.{JsMap, JsSet, get, has, set, delete, add, size, values, keys}
use Config.{LossSplit}
use Split.{pay_defenders}

pub data Side : Type 0 where
  attacker defender : Side

pub data BetStatus : Type 0 where
  pending locked won lost returned burned : BetStatus

pub data PoolStatus : Type 0 where
  active resolved : PoolStatus

-- `bet_${raidId}_${walletAddress}_${Date.now()}`: a wallet has no underscore, so the text is equal
-- exactly where the three parts are.
pub record BetId : Type 0 where
  pub raid : ℕ
  pub wallet : ℕ
  pub at : ℕ

pub bet_id_beq : BetId → BetId → Bool
bet_id_beq a b = a.raid == b.raid && (a.wallet == b.wallet && a.at == b.at)

pub bet_id_beq_iff : (a b : BetId) → (bet_id_beq a b ≡ true) ↔ (a ≡ b)
unfolding bet_id_beq
bet_id_beq_iff a b = ground arith

instance abbrev pub bet_id_eq : Eq BetId
bet_id_eq = record { beq = bet_id_beq; beq_iff = bet_id_beq_iff }

-- `BetRecord`. The signatures stay opaque, and the one of a return is the chain layer's.
pub record Bet : Type 0 where
  pub id : BetId
  pub raid_id : ℕ
  pub wallet : ℕ
  pub asteroid_id : ℕ
  pub amount : ℕ
  pub side : Side
  pub status : BetStatus
  pub created_at : ℕ
  pub resolved_at : Option ℕ
  pub tx_signature : ℕ

-- `RaidBetPool`
pub record Pool : Type 0 where
  pub raid_id : ℕ
  pub target : ℕ
  pub source : ℕ
  pub attacker_bets : JsMap ℕ ℕ
  pub total_attacker_bets : ℕ
  pub status : PoolStatus
  pub created_at : ℕ
  pub resolved_at : Option ℕ
  pub winning_side : Option Side

pub record Ledger : Type 0 where
  pub pools : JsMap ℕ Pool
  pub bets_by_wallet : JsMap ℕ (JsSet BetId)
  pub bets : JsMap BetId ℕ
  -- The objects, and the reference that the next one gets.
  pub objects : ℕ → Bet
  pub next : ℕ

pub data Error : Type 0 where
  pool_exists pool_not_found not_accepting already_bet already_resolved : Error

abbrev pub is_active : PoolStatus → Bool
is_active active = true
is_active resolved = false

abbrev pub is_locked : BetStatus → Bool
is_locked locked = true
is_locked _ = false

abbrev pub store : (ℕ → Bet) → ℕ → Bet → ℕ → Bet
store o r b j = if j == r then b else o j

pub create_raid_pool : ℕ → ℕ → ℕ → ℕ → Ledger → Result Error (Ledger × Pool)
create_raid_pool now raid target source l =
    if has raid l.pools
    then err pool_exists
    else (let p : Pool = record {
      raid_id = raid;
      target = target;
      source = source;
      attacker_bets = [];
      total_attacker_bets = 0;
      status = active;
      created_at = now;
      resolved_at = none;
      winning_side = none;
    } in
        ok (record l { pools = set raid p l.pools }, p))

-- The pool with a bet of the attacker's side in it.
abbrev pub with_bet : Side → ℕ → ℕ → ℕ → Pool → Pool
with_bet attacker w ref amount p = record p {
  attacker_bets = set w ref p.attacker_bets;
  total_attacker_bets = p.total_attacker_bets + amount;
}
with_bet defender w ref amount p = p

abbrev pub new_bet : ℕ → ℕ → ℕ → ℕ → ℕ → Side → ℕ → Bet
new_bet now raid w asteroid amount side tx = record {
  id = record { raid = raid; wallet = w; at = now };
  raid_id = raid;
  wallet = w;
  asteroid_id = asteroid;
  amount = amount;
  side = side;
  status = locked;
  created_at = now;
  resolved_at = none;
  tx_signature = tx;
}

-- `placeBet` once the guards have passed.
pub record_bet : Bet → Pool → Ledger → Ledger
record_bet b p l = record l {
  pools = set b.raid_id (with_bet b.side b.wallet l.next b.amount p) l.pools;
  bets_by_wallet =
      set b.wallet (add b.id (get_or (get b.wallet l.bets_by_wallet) [])) l.bets_by_wallet;
  bets = set b.id l.next l.bets;
  objects = store l.objects l.next b;
  next = l.next + 1;
}

place_bet_in : Bet → Ledger → Option Pool → Result Error (Ledger × Bet)
unfolding record_bet
place_bet_in b l none = err pool_not_found
place_bet_in b l (some p) =
    if not (is_active p.status)
    then err not_accepting
    else if has b.wallet p.attacker_bets
    then err already_bet
    else ok (record_bet b p l, b)

pub place_bet : ℕ → ℕ → ℕ → ℕ → ℕ → Side → ℕ → Ledger → Result Error (Ledger × Bet)
unfolding place_bet_in
place_bet now raid w asteroid amount side tx l =
    place_bet_in (new_bet now raid w asteroid amount side tx) l (get raid l.pools)

-- The object of a bet that is still in the ledger.
abbrev pub bet_of : Ledger → BetId → Option Bet
bet_of l id = elim (get id l.bets) [ none ↦ none | some r ↦ some (l.objects r) ]

-- The loops of the three queries over a wallet's bets.
any_locked : Ledger → JsSet BetId → Bool
any_locked l [] = false
any_locked l ((id, _) ∷ ids) = holds (λ b. is_locked b.status) (bet_of l id) || any_locked l ids

abbrev locked_amount : Option Bet → ℕ
locked_amount none = 0
locked_amount (some b) = if is_locked b.status then b.amount else 0

sum_locked : Ledger → JsSet BetId → ℕ → ℕ
sum_locked l [] acc = acc
sum_locked l ((id, _) ∷ ids) acc = sum_locked l ids (acc + locked_amount (bet_of l id))

abbrev push_locked : Option Bet → List Bet → List Bet
push_locked none bs = bs
push_locked (some b) bs = if is_locked b.status then b ∷ bs else bs

collect_locked : Ledger → JsSet BetId → List Bet
collect_locked l [] = []
collect_locked l ((id, _) ∷ ids) = push_locked (bet_of l id) (collect_locked l ids)

pub has_locked_bets : ℕ → Ledger → Bool
unfolding any_locked
has_locked_bets w l = any_locked l (get_or (get w l.bets_by_wallet) [])

pub get_locked_bet_amount : ℕ → Ledger → ℕ
unfolding sum_locked
get_locked_bet_amount w l = sum_locked l (get_or (get w l.bets_by_wallet) []) 0

pub get_active_bets : ℕ → Ledger → List Bet
unfolding collect_locked
get_active_bets w l = collect_locked l (get_or (get w l.bets_by_wallet) [])

-- What the loop of `resolveRaid` over the attackers' bets works on.
pub record Tally : Type 0 where
  pub objects : ℕ → Bet
  pub returned : ℕ
  pub winner_payouts : JsMap ℕ ℕ
  pub forfeited : ℕ
  pub defender_target : ℕ
  pub recirculate_target : ℕ

pub settle_bet : ℕ → Side → LossSplit → ℕ → ℕ → Tally → Tally
settle_bet now attacker split w r t =
    let b = t.objects r in
    record t {
      objects = store t.objects r (record b { status = won; resolved_at = some now });
      returned = t.returned + b.amount;
      winner_payouts = set w b.amount t.winner_payouts;
    }
settle_bet now defender split w r t =
    let b = t.objects r in
    record t {
      objects = store t.objects r (record b { status = lost; resolved_at = some now });
      forfeited = t.forfeited + b.amount;
      defender_target = t.defender_target + b.amount * split.defender_bps / 10000;
      recirculate_target = t.recirculate_target + b.amount * split.recirculate_bps / 10000;
    }

pub settle_loop : ℕ → Side → LossSplit → JsMap ℕ ℕ → Tally → Tally
settle_loop now side split [] t = t
settle_loop now side split ((w, r) ∷ rest) t =
    settle_loop now side split rest (settle_bet now side split w r t)

-- `EscrowResolution`
pub record Resolution : Type 0 where
  pub raid_id : ℕ
  pub winning_side : Side
  pub burned : ℕ
  pub returned_to_winners : ℕ
  pub distributed_to_defenders : ℕ
  pub recirculated : ℕ
  pub winner_payouts : JsMap ℕ ℕ
  pub defender_payouts : JsMap ℕ ℕ

-- The three legs, once the bets are settled. The subtractions are of whole numbers at least 0:
-- that they take nothing from less is a theorem.
pub conclude : ℕ → Side → Tally → JsMap ℕ ℕ → Resolution
conclude raid attacker t stakes = record {
  raid_id = raid;
  winning_side = attacker;
  burned = 0;
  returned_to_winners = t.returned;
  distributed_to_defenders = 0;
  recirculated = 0;
  winner_payouts = t.winner_payouts;
  defender_payouts = [];
}
conclude raid defender t stakes =
    let (payouts, paid) = pay_defenders t.defender_target stakes in
    let recirculated = t.recirculate_target + (t.defender_target - paid) in
    record {
      raid_id = raid;
      winning_side = defender;
      burned = t.forfeited - paid - recirculated;
      returned_to_winners = t.returned;
      distributed_to_defenders = paid;
      recirculated = recirculated;
      winner_payouts = t.winner_payouts;
      defender_payouts = payouts;
    }

abbrev pub start_tally : (ℕ → Bet) → Tally
start_tally o = record {
  objects = o;
  returned = 0;
  winner_payouts = [];
  forfeited = 0;
  defender_target = 0;
  recirculate_target = 0;
}

resolve_in :
    ℕ → LossSplit → ℕ → Side → JsMap ℕ ℕ → Ledger → Option Pool → Result Error (Ledger × Resolution)
unfolding settle_loop settle_bet conclude
resolve_in now split raid side stakes l none = err pool_not_found
resolve_in now split raid side stakes l (some p) =
    if not (is_active p.status)
    then err already_resolved
    else (let t = settle_loop now side split p.attacker_bets (start_tally l.objects) in
        let p' = record p { status = resolved; resolved_at = some now; winning_side = some side } in
        ok (
          record l { pools = set raid p' l.pools; objects = t.objects },
          conclude raid side t stakes,
        ))

pub resolve_raid :
    ℕ → LossSplit → ℕ → Side → JsMap ℕ ℕ → Ledger → Result Error (Ledger × Resolution)
unfolding resolve_in
resolve_raid now split raid side stakes l =
    resolve_in now split raid side stakes l (get raid l.pools)

-- Whether `cleanupResolvedPools` drops a pool.
pub is_old : ℕ → ℕ → Pool → Bool
is_old now max_age p = elim p.resolved_at [
  | none ↦ false
  | some t ↦ not (is_active p.status) && ltb max_age (now - t)
]

drop_from_wallet : Bet → JsMap ℕ (JsSet BetId) → Option (JsSet BetId) → JsMap ℕ (JsSet BetId)
drop_from_wallet b m none = m
drop_from_wallet b m (some ids) =
    let left = delete b.id ids in if size left == 0 then delete b.wallet m else set b.wallet left m

drop_bet : Bet → Ledger → Ledger
unfolding drop_from_wallet
drop_bet b l = record l {
  bets_by_wallet = drop_from_wallet b l.bets_by_wallet (get b.wallet l.bets_by_wallet);
  bets = delete b.id l.bets;
}

drop_bets : List ℕ → Ledger → Ledger
unfolding drop_bet
drop_bets [] l = l
drop_bets (r ∷ rs) l = drop_bets rs (drop_bet (l.objects r) l)

clean_pool : ℕ → ℕ → ℕ → Pool → Ledger × ℕ → Ledger × ℕ
unfolding drop_bets is_old
clean_pool now max_age raid p (l, n) =
    if is_old now max_age p
    then (let l' = drop_bets (values p.attacker_bets) l in
        (record l' { pools = delete raid l'.pools }, n + 1))
    else (l, n)

clean_loop : ℕ → ℕ → JsMap ℕ Pool → Ledger × ℕ → Ledger × ℕ
unfolding clean_pool
clean_loop now max_age [] acc = acc
clean_loop now max_age ((raid, p) ∷ rest) acc =
    clean_loop now max_age rest (clean_pool now max_age raid p acc)

pub cleanup_resolved_pools : ℕ → ℕ → Ledger → Ledger × ℕ
unfolding clean_loop
cleanup_resolved_pools now max_age l = clean_loop now max_age l.pools (l, 0)

pub record Stats : Type 0 where
  pub active_raids : ℕ
  pub total_locked_bets : ℕ
  pub total_bettors : ℕ

stats_loop : List Pool → Stats → Stats
stats_loop [] s = s
stats_loop (p ∷ ps) s = stats_loop ps (
    if is_active p.status
    then record s {
      active_raids = s.active_raids + 1;
      total_locked_bets = s.total_locked_bets + p.total_attacker_bets;
      total_bettors = s.total_bettors + size p.attacker_bets;
    }
    else s)

pub get_stats : Ledger → Stats
unfolding stats_loop
get_stats l =
    stats_loop (values l.pools)
      (record { active_raids = 0; total_locked_bets = 0; total_bettors = 0 })
