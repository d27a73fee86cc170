-- ===== src/StakeManager/Credits.antt =====
-- server/game/stake-manager.ts, lines 483 to 527 and 751 to 933: the pending yield, a wallet's
-- claim in credits. The durable store and the audit ledger are outside: the state keeps what was
-- sent to them, newest first, and a restore is given what they returned, `none` where they failed.
pub mod Ledger
pub mod Restart
use astroid_club.Prelude.{
  All, Bool, Bool-cases, Eq, List, Option, Option-cases, [], ap, arith, false, get_or, holds,
  if_cases, if_keeps, if◌then◌else◌, inl, inr, is_some, leb, length, length-append, ltb, map, max,
  min, nat_beq_iff, nat_eq, none, not, refl, some, subst, suc, sum_by, sum_by-append, sym, true,
  zero, ℕ, ◌%◌, ◌&&◌, ◌*◌, ◌++◌, ◌+◌, ◌-◌, ◌/◌, ◌<◌, ◌==◌, ◌||◌, ◌↔◌, ◌∙◌, ◌∷◌, ◌≡◌, ◌≢◌, ◌≤◌, ◌⊎◌,
}
use astroid_club.Prelude.Int.{Number, finite, pos, negsuc, not_finite}
use astroid_club.JsMap.{JsMap, get, set, delete}
use astroid_club.JsMap.Sums.{total}

-- What is sent to `pendingYieldStore`.
pub data Write : Type 0 where
  put : (wallet total : ℕ) → Write
  drop : (wallet : ℕ) → Write

-- What is sent to `yieldLedger`.
pub data Entry : Type 0 where
  credit : (wallet asteroid amount : ℕ) → Entry
  claim redeem : (wallet amount : ℕ) → Entry

pub record Credits : Type 0 where
  pub pending : JsMap ℕ ℕ
  pub earned : JsMap ℕ ℕ
  pub redeemed : JsMap ℕ ℕ
  pub has_store : Bool
  pub has_ledger : Bool
  pub writes : List Write
  pub entries : List Entry

-- The constructor: whether a store and a ledger are wired.
unfoldable pub new_credits : Bool → Bool → Credits
new_credits store ledger = record {
  pending = [];
  earned = [];
  redeemed = [];
  has_store = store;
  has_ledger = ledger;
  writes = [];
  entries = [];
}

-- `map.get(wallet) ?? 0`
abbrev pub at : ℕ → JsMap ℕ ℕ → ℕ
at w m = get_or (get w m) 0

abbrev pub persist : Write → Credits → Credits
persist x c = if c.has_store then record c { writes = x ∷ c.writes } else c

abbrev pub log : Bool → Entry → Credits → Credits
log when x c = if c.has_ledger && when then record c { entries = x ∷ c.entries } else c

-- A balance set in memory and in the store, or cleared from both.
abbrev pub put_pending : ℕ → ℕ → Credits → Credits
put_pending w n c = persist (put w n) (record c { pending = set w n c.pending })

abbrev pub drop_pending : ℕ → Credits → Credits
drop_pending w c = persist (drop w) (record c { pending = delete w c.pending })

abbrev pub add_earned : ℕ → ℕ → Credits → Credits
add_earned w n c = if ltb 0 n then record c { earned = set w (at w c.earned + n) c.earned } else c

unfoldable pub add_pending_yield : ℕ → ℕ → ℕ → Credits → Credits
add_pending_yield w a n c =
    log (not (n == 0)) (credit w a n) (add_earned w n (put_pending w (at w c.pending + n) c))

unfoldable pub get_pending_yield : ℕ → Credits → ℕ
get_pending_yield w c = at w c.pending

unfoldable pub claim_pending_yield : ℕ → Credits → Credits × ℕ
claim_pending_yield w c =
    let n = at w c.pending in (log (ltb 0 n) (claim w n) (drop_pending w c), n)

-- `Number.isFinite(amount) && amount > 0`
abbrev pub positive : Number → Option ℕ
positive (finite (pos n)) = if ltb 0 n then some n else none
positive (finite (negsuc n)) = none
positive not_finite = none

-- What `redeemPendingYield` and `spendPendingYield` share: the balance is tested and debited.
abbrev pub debit : ℕ → ℕ → Credits → Option Credits
debit w n c =
    let current = at w c.pending in
    if ltb current n
    then none
    else some (if ltb 0 (current - n) then put_pending w (current - n) c else drop_pending w c)

abbrev pub book_redeemed : ℕ → ℕ → Credits → Credits
book_redeemed w n c =
    log true (redeem w n) (record c { redeemed = set w (at w c.redeemed + n) c.redeemed })

unfoldable pub redeem_pending_yield : ℕ → Number → Credits → Credits × Bool
redeem_pending_yield w amount c = elim (positive amount) [
  | none ↦ (c, false)
  | some n ↦ elim (debit w n c) [ none ↦ (c, false) | some c' ↦ (book_redeemed w n c', true) ]
]

unfoldable pub spend_pending_yield : ℕ → Number → Credits → Credits × Bool
spend_pending_yield w amount c = elim (positive amount) [
  | none ↦ (c, false)
  | some n ↦ elim (debit w n c) [ none ↦ (c, false) | some c' ↦ (c', true) ]
]

unfoldable pub get_total_pending_yield : Credits → ℕ
get_total_pending_yield c = total (λ n. n) c.pending

unfoldable pub get_outstanding_credits : Credits → ℕ
unfolding get_total_pending_yield
get_outstanding_credits c = get_total_pending_yield c

pub get_lifetime_earned : ℕ → Credits → ℕ
get_lifetime_earned w c = at w c.earned

pub get_lifetime_redeemed : ℕ → Credits → ℕ
get_lifetime_redeemed w c = at w c.redeemed

pub get_total_lifetime_earned : Credits → ℕ
get_total_lifetime_earned c = total (λ n. n) c.earned

pub get_total_lifetime_redeemed : Credits → ℕ
get_total_lifetime_redeemed c = total (λ n. n) c.redeemed

-- The loops of `restorePendingYield`.
pub restore_loop : JsMap ℕ ℕ → JsMap ℕ ℕ × ℕ → JsMap ℕ ℕ × ℕ
restore_loop [] acc = acc
restore_loop ((w, n) ∷ rest) (m, k) =
    restore_loop rest (if ltb 0 n then (set w n m, k + 1) else (m, k))

pub totals_loop : JsMap ℕ (ℕ × ℕ) → Credits → Credits
totals_loop [] c = c
totals_loop ((w, (e, r)) ∷ rest) c =
    let c' = if ltb 0 e then record c { earned = set w e c.earned } else c in
    totals_loop rest (if ltb 0 r then record c' { redeemed = set w r c'.redeemed } else c')

-- `rows` is what the ledger's `getAllBalances` returned where a ledger is wired, else the store's
-- `getAll`; `totals` what `getLifetimeTotals` returned, `none` where the ledger has none.
unfoldable pub restore_pending_yield :
    Option (JsMap ℕ ℕ) → Option (JsMap ℕ (ℕ × ℕ)) → Credits → Credits × ℕ
unfolding restore_loop totals_loop
restore_pending_yield rows totals c =
    if c.has_ledger || c.has_store
    then elim rows [
      | none ↦ (c, 0)
      | some all ↦
          let (m, k) = restore_loop all (c.pending, 0) in
          let c' : Credits = record c { pending = m } in
          (if c.has_ledger then elim totals [ none ↦ c' | some ts ↦ totals_loop ts c' ] else c', k)
    ]
    else (c, 0)
