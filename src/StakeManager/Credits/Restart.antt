-- ===== src/StakeManager/Credits/Restart.antt =====
-- A restart of the credits on what the durable store or the ledger returns, and the sum over all
-- wallets.
use astroid_club.Prelude.{
  Bool, List, [], arith, false, if_keeps, if◌then◌else◌, ltb, nat_eq, none, not, refl, some, sum_by,
  true, ℕ, ◌+◌, ◌-◌, ◌||◌, ◌∷◌, ◌≡◌,
}
use astroid_club.JsMap.{JsMap, set, delete, IsUnique}
use astroid_club.JsMap.Laws.{get-set, set-IsUnique, delete-IsUnique}
use astroid_club.JsMap.Sums.{total, total-set, total-delete}
use astroid_club.Prelude.Int.{finite, pos, negsuc, not_finite}
use astroid_club.StakeManager.Credits.{
  Write, Entry, Credits, new_credits, at, restore_loop, restore_pending_yield, get_pending_yield,
  add_pending_yield, claim_pending_yield, redeem_pending_yield, spend_pending_yield,
  get_total_pending_yield, get_outstanding_credits, get_total_lifetime_earned,
}
use astroid_club.StakeManager.Credits.Ledger.{
  Call, adds, claims, redeems, spends, apply, after, taken, spent, credited_by, debited_by, stored,
  after-books, after-stored,
}

-- What a ledger promises of `getAllBalances`: each wallet once, with what the entries credit less
-- what they debit. A wallet may be left out where that is 0.
pub record YieldLedger : Type 0 where
  pub balances : List Entry → JsMap ℕ ℕ
  pub unique : (es : List Entry) → IsUnique (balances es)
  pub sums :
      (es : List Entry) (w : ℕ)
      → at w (balances es) ≡ sum_by (credited_by w) es - sum_by (debited_by w) es

-- What a store promises of `getAll`: each wallet once, with the balance written last.
pub record PendingYieldStore : Type 0 where
  pub rows : List Write → JsMap ℕ ℕ
  pub unique : (ws : List Write) → IsUnique (rows ws)
  pub last : (ws : List Write) (w : ℕ) → at w (rows ws) ≡ stored w ws

at-restore_loop :
    (w : ℕ) (rows m : JsMap ℕ ℕ) (k : ℕ)
    → IsUnique rows
    → at w (restore_loop rows (m, k)).0 ≡ (if ltb 0 (at w rows) then at w rows else at w m)
unfolding restore_loop
at-restore_loop w [] m k u = ground arith
at-restore_loop w ((v, n) ∷ rest) m k u = ground (
  arith,
  u.0,
  get-set w v n m,
  at-restore_loop w rest (set v n m) (k + 1) u.1,
  at-restore_loop w rest m k u.1,
)

-- A process that starts afresh on what the ledger, or else the store, returns.
unfoldable pub restart : Bool → Bool → JsMap ℕ ℕ → Credits
restart store ledger rows = (restore_pending_yield (some rows) none (new_credits store ledger)).0

at-restart :
    (w : ℕ) (store ledger : Bool) (rows : JsMap ℕ ℕ)
    → (ledger || store) ≡ true
    → IsUnique rows
    → get_pending_yield w (restart store ledger rows) ≡ at w rows
unfolding restart restore_pending_yield get_pending_yield new_credits
at-restart w store ledger rows h u = ground (arith, h, at-restore_loop w rows [] 0 u)

-- Where only a store is wired, a restart on it gives every wallet the pending yield that it had
-- after any calls.
pub restart_on_store :
    (s : PendingYieldStore) (xs : List Call) (w : ℕ)
    → let c = after (new_credits true false) xs in
      get_pending_yield w (restart true false (s.rows c.writes)) ≡ get_pending_yield w c
unfolding get_pending_yield
restart_on_store s xs w =
    let c = after (new_credits true false) xs in
    ground (
      arith,
      at-restart w true false (s.rows c.writes) refl (s.unique c.writes),
      s.last c.writes w,
      after-stored w false xs,
    )

-- Where a ledger is wired, a restart on it gives every wallet the pending yield that it had after any
-- calls and, on top of that, all that the wallet has spent in the game.
pub restart_on_ledger :
    (l : YieldLedger) (store : Bool) (xs : List Call) (w : ℕ)
    → let c0 = new_credits store true in
      let c = after c0 xs in
      get_pending_yield w (restart store true (l.balances c.entries))
      ≡ get_pending_yield w c + spent w c0 xs
unfolding get_pending_yield
restart_on_ledger l store xs w =
    let c = after (new_credits store true) xs in
    ground (
      arith,
      at-restart w store true (l.balances c.entries) refl (l.unique c.entries),
      l.sums c.entries w,
      after-books w store xs,
    )

-- What a call takes out of the pending yield, whoever's.
abbrev pub leaves : Call → Credits → ℕ
leaves (adds w a n) c = 0
leaves (claims w) c = at w c.pending
leaves (redeems w n) c = taken w n c
leaves (spends w n) c = taken w n c

pub left : Credits → List Call → ℕ
left c [] = 0
left c (x ∷ older) = leaves x (after c older) + left c older

-- The pending yields that a debit leaves.
abbrev debited_map : ℕ → ℕ → JsMap ℕ ℕ → JsMap ℕ ℕ
debited_map w n m =
    if not (ltb 0 n) || ltb (at w m) n
    then m
    else if ltb 0 (at w m - n)
    then set w (at w m - n) m
    else delete w m

debited_map-IsUnique : (w n : ℕ) (m : JsMap ℕ ℕ) → IsUnique m → IsUnique (debited_map w n m)
debited_map-IsUnique w n m u =
    let less : JsMap ℕ ℕ = if ltb 0 (at w m - n) then set w (at w m - n) m else delete w m in
    if_keeps (λ (x : JsMap ℕ ℕ). IsUnique x) (not (ltb 0 n) || ltb (at w m) n) m less u
      (if_keeps (λ (x : JsMap ℕ ℕ). IsUnique x) (ltb 0 (at w m - n)) (set w (at w m - n) m)
        (delete w m) (set-IsUnique w (at w m - n) m u) (delete-IsUnique w m u))

apply-IsUnique : (x : Call) (c : Credits) → IsUnique c.pending → IsUnique (apply x c).pending
unfolding apply add_pending_yield claim_pending_yield redeem_pending_yield spend_pending_yield
apply-IsUnique (adds w a n) c u =
    let e : (apply (adds w a n) c).pending ≡ set w (at w c.pending + n) c.pending = ground arith in
    rw e (set-IsUnique w (at w c.pending + n) c.pending u)
apply-IsUnique (claims w) c u =
    let e : (apply (claims w) c).pending ≡ delete w c.pending = ground arith in
    rw e (delete-IsUnique w c.pending u)
apply-IsUnique (redeems w (finite (pos n))) c u =
    let e : (apply (redeems w (finite (pos n))) c).pending ≡ debited_map w n c.pending =
      ground arith in
    rw e (debited_map-IsUnique w n c.pending u)
apply-IsUnique (redeems w (finite (negsuc n))) c u = u
apply-IsUnique (redeems w not_finite) c u = u
apply-IsUnique (spends w (finite (pos n))) c u =
    let e : (apply (spends w (finite (pos n))) c).pending ≡ debited_map w n c.pending =
      ground arith in
    rw e (debited_map-IsUnique w n c.pending u)
apply-IsUnique (spends w (finite (negsuc n))) c u = u
apply-IsUnique (spends w not_finite) c u = u

apply-sum :
    (x : Call) (c : Credits) (gone : ℕ)
    → IsUnique c.pending
    → total (λ n. n) c.earned ≡ total (λ n. n) c.pending + gone
    → total (λ n. n) (apply x c).earned ≡ total (λ n. n) (apply x c).pending + (leaves x c + gone)
unfolding apply add_pending_yield claim_pending_yield redeem_pending_yield spend_pending_yield
apply-sum (adds w a n) c gone u h = ground (
  arith,
  h,
  total-set (λ n. n) w (at w c.pending + n) c.pending,
  total-set (λ n. n) w (at w c.earned + n) c.earned,
)
apply-sum (claims w) c gone u h = ground (arith, h, total-delete (λ n. n) w c.pending u)
apply-sum (redeems w (finite (pos n))) c gone u h = ground (
  arith,
  h,
  total-set (λ n. n) w (at w c.pending - n) c.pending,
  total-delete (λ n. n) w c.pending u,
)
apply-sum (redeems w (finite (negsuc n))) c gone u h = ground (arith, h)
apply-sum (redeems w not_finite) c gone u h = ground (arith, h)
apply-sum (spends w (finite (pos n))) c gone u h = ground (
  arith,
  h,
  total-set (λ n. n) w (at w c.pending - n) c.pending,
  total-delete (λ n. n) w c.pending u,
)
apply-sum (spends w (finite (negsuc n))) c gone u h = ground (arith, h)
apply-sum (spends w not_finite) c gone u h = ground (arith, h)

after-IsUnique :
    (store ledger : Bool) (xs : List Call) → IsUnique (after (new_credits store ledger) xs).pending
unfolding after new_credits
after-IsUnique store ledger [] = tt
after-IsUnique store ledger (x ∷ xs) =
    apply-IsUnique x (after (new_credits store ledger) xs) (after-IsUnique store ledger xs)

-- After any calls, the credits ever earned by all wallets are the outstanding ones and those that
-- were claimed, redeemed or spent.
pub outstanding_exact :
    (store ledger : Bool) (xs : List Call)
    → let c0 = new_credits store ledger in
      get_total_lifetime_earned (after c0 xs) ≡ get_outstanding_credits (after c0 xs) + left c0 xs
unfolding after left new_credits get_outstanding_credits get_total_pending_yield
    get_total_lifetime_earned
outstanding_exact store ledger [] = omega arith
outstanding_exact store ledger (x ∷ xs) =
    let c0 = new_credits store ledger in
    apply-sum x (after c0 xs) (left c0 xs) (after-IsUnique store ledger xs)
      (outstanding_exact store ledger xs)
