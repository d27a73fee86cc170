-- ===== src/StakeManager/Tests.antt =====
-- A store and a ledger that keep their promises, and the theorems at concrete inputs.
use astroid_club.Prelude.{
  Bool, List, [], arith, false, if◌then◌else◌, nat_eq, refl, some, sum_by, true, ℕ, ◌*◌, ◌+◌, ◌-◌,
  ◌==◌, ◌||◌, ◌∷◌, ◌≡◌,
}
use astroid_club.Prelude.Int.{finite, pos}
use astroid_club.JsMap.{JsMap, set, delete, IsUnique}
use astroid_club.JsMap.{keys}
use astroid_club.JsMap.Sums.{total}
use astroid_club.Prelude.Fraction.{one}
use astroid_club.AsteroidRegistry.{Definition, gold, Registry, create_asteroid_state}
use astroid_club.StakeManager.Positions.{
  Miner, new_miner, Positions, new_positions, miner_of, stakes_of, stake, unstake,
}
use astroid_club.StakeManager.Positions.Books.{staked_in, amounts, amount_at}
use astroid_club.StakeManager.Positions.History.{
  requests, puts, stakes_balance, unstake-stake, Call as Move, after as moved,
}
use astroid_club.StakeManager.Presence.{
  calculate_yield_share, share_total, get_asteroid_effective_stake_total, effective_stake_at,
}
use astroid_club.StakeManager.Presence.Shares.{shares_make_half}
use astroid_club.JsMap.Laws.{get-set, get-delete, set-IsUnique, delete-IsUnique}
use astroid_club.StakeManager.Credits.{
  Write, put, drop, Entry, credit, claim, redeem, new_credits, at, get_pending_yield,
  get_outstanding_credits, get_total_lifetime_earned, add_pending_yield, redeem_pending_yield,
  spend_pending_yield,
}
use astroid_club.StakeManager.Credits.Ledger.{
  Call, adds, redeems, spends, after, apply, spent, credited_by, debited_by, stored,
}
use astroid_club.StakeManager.Credits.Restart.{
  YieldLedger, PendingYieldStore, restart, restart_on_store, restart_on_ledger, outstanding_exact,
  left,
}

-- A table of balances.
table : List Write → JsMap ℕ ℕ
table [] = []
table (put w n ∷ older) = set w n (table older)
table (drop w ∷ older) = delete w (table older)

table-IsUnique : (ws : List Write) → IsUnique (table ws)
unfolding table
table-IsUnique [] = tt
table-IsUnique (put w n ∷ older) = set-IsUnique w n (table older) (table-IsUnique older)
table-IsUnique (drop w ∷ older) = delete-IsUnique w (table older) (table-IsUnique older)

at-table : (ws : List Write) (w : ℕ) → at w (table ws) ≡ stored w ws
unfolding table stored
at-table [] w = refl
at-table (put v n ∷ older) w = ground (arith, get-set w v n (table older), at-table older w)
at-table (drop v ∷ older) w = ground (arith, get-delete w v (table older), at-table older w)

store : PendingYieldStore
store = record { rows = table; unique = table-IsUnique; last = at-table }

-- `SELECT wallet, SUM(delta) … GROUP BY wallet`
abbrev wallet_of : Entry → ℕ
wallet_of (credit w a n) = w
wallet_of (claim w n) = w
wallet_of (redeem w n) = w

abbrev sum_of : ℕ → List Entry → ℕ
sum_of w es = sum_by (credited_by w) es - sum_by (debited_by w) es

sums_of : List Entry → List Entry → JsMap ℕ ℕ
sums_of whole [] = []
sums_of whole (e ∷ es) = set (wallet_of e) (sum_of (wallet_of e) whole) (sums_of whole es)

sums_of-IsUnique : (whole es : List Entry) → IsUnique (sums_of whole es)
unfolding sums_of
sums_of-IsUnique whole [] = tt
sums_of-IsUnique whole (e ∷ es) =
    set-IsUnique (wallet_of e) (sum_of (wallet_of e) whole) (sums_of whole es)
      (sums_of-IsUnique whole es)

-- A wallet that no entry names has no credits.
abbrev names : ℕ → List Entry → Bool
names w [] = false
names w (e ∷ es) = w == wallet_of e || names w es

at-sums_of :
    (whole es : List Entry) (w : ℕ)
    → at w (sums_of whole es) ≡ (if names w es then sum_of w whole else 0)
unfolding sums_of
at-sums_of whole [] w = refl
at-sums_of whole (e ∷ es) w = ground (
  arith,
  get-set w (wallet_of e) (sum_of (wallet_of e) whole) (sums_of whole es),
  at-sums_of whole es w,
)

unnamed : (w : ℕ) (es : List Entry) → names w es ≡ false → sum_by (credited_by w) es ≡ 0
unnamed w [] h = refl
unnamed w (credit v a n ∷ es) h = ground (arith, h, unnamed w es)
unnamed w (claim v n ∷ es) h = ground (arith, h, unnamed w es)
unnamed w (redeem v n ∷ es) h = ground (arith, h, unnamed w es)

at-ledger : (es : List Entry) (w : ℕ) → at w (sums_of es es) ≡ sum_of w es
at-ledger es w = ground (arith, at-sums_of es es w, unnamed w es)

ledger : YieldLedger
ledger = record {
  balances = λ es. sums_of es es;
  unique = λ es. sums_of-IsUnique es es;
  sums = at-ledger;
}

-- Newest first: wallet 1 earns 50 and 30, pays 20 for a deflection, and redeems 10.
abbrev calls : List Call
calls =
    redeems 1 (finite (pos 10))
    ∷ spends 1 (finite (pos 20))
    ∷ adds 1 7 30
    ∷ adds 2 7 5
    ∷ adds 1 7 50
    ∷ []

left_over : get_pending_yield 1 (after (new_credits true true) calls) ≡ 50
unfolding get_pending_yield after apply add_pending_yield redeem_pending_yield spend_pending_yield
    new_credits
left_over = refl

restart_on_store_example :
    let c = after (new_credits true false) calls in
    get_pending_yield 1 (restart true false (store.rows c.writes)) ≡ get_pending_yield 1 c
restart_on_store_example = restart_on_store store calls 1

restart_on_ledger_example :
    let c0 = new_credits false true in
    let c = after c0 calls in
    get_pending_yield 1 (restart false true (ledger.balances c.entries))
    ≡ get_pending_yield 1 c + spent 1 c0 calls
restart_on_ledger_example = restart_on_ledger ledger false calls 1

outstanding_exact_example :
    let c0 = new_credits true true in
    get_total_lifetime_earned (after c0 calls)
    ≡ get_outstanding_credits (after c0 calls) + left c0 calls
outstanding_exact_example = outstanding_exact true true calls

-- One registered asteroid, and wallet 1 that stakes there twice and takes some back.
abbrev rock : Definition
rock = record { id = 7; resource = gold; base_discovery_time = 600_000; base_reward = one }

abbrev registry : Registry
registry = record { asteroids = (7, create_asteroid_state rock 0) ∷ []; miner_locations = [] }

abbrev moves : List Move
moves = requests 1 7 30 true 12 ∷ puts 20 1 7 (pos 50) ∷ puts 10 1 7 (pos 100) ∷ []

registry_empty : (b : ℕ) → staked_in b registry ≡ 0
unfolding create_asteroid_state
registry_empty b = ground arith

stakes_balance_example :
    let p = moved (new_positions false registry) moves in
    ((miner_of 1 p).total_stake ≡ amounts (stakes_of 1 p))
    × (staked_in 7 p.registry ≡ total (amount_at 7) p.stakes)
stakes_balance_example = stakes_balance false registry moves 1 7 registry_empty

unstake-stake_example :
    amount_at 7
      (stakes_of 1 (unstake 1 7 40 (stake 5 1 7 (pos 40) (new_positions false registry)).0).0)
    ≡ amount_at 7 (stakes_of 1 (new_positions false registry))
unfolding create_asteroid_state new_positions
unstake-stake_example = unstake-stake 5 1 7 7 40 (new_positions false registry) (omega arith) refl

-- Two wallets with on-chain stakes mine at asteroid 7.
abbrev miner_at_rock : Miner
miner_at_rock = record new_miner { active = some 7 }

abbrev staked : Positions
staked = record (new_positions true registry) {
  miners = (1, miner_at_rock) ∷ (2, miner_at_rock) ∷ [];
  on_chain = (1, 300) ∷ (2, 100) ∷ [];
}

shares_make_half_example :
    let den = (calculate_yield_share 1 7 1000 staked).den in
    (den ≡ 2 * share_total 7 staked)
    × (2 * sum_by (λ v. (calculate_yield_share v 7 1000 staked).num) (keys staked.miners)
        ≡ 1000 * den)
unfolding share_total get_asteroid_effective_stake_total effective_stake_at new_positions
shares_make_half_example = shares_make_half 1 7 1000 staked refl (omega arith)
