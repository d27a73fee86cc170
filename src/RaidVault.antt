-- ===== src/RaidVault.antt =====
-- server/game/raid-vault.ts: the stealable treasury of each asteroid. Amounts are whole token
-- units, at least 0. The durable store is outside: the state keeps the writes sent to it, newest
-- first, and `restore` is given what its `getAll` returned (`none` where it failed).
pub mod Laws
mod Tests
use astroid_club.Prelude.{
  nat_eq, ℕ, ◌+◌, ◌-◌, min, Bool, true, false, ◌||◌, Option, none, some, List, [], ◌∷◌, ltb, leb,
  if◌then◌else◌, get_or,
}
use astroid_club.JsMap.{JsMap, get, set}
use astroid_club.JsMap.Sums.{total}

-- `class RaidVaultManager`
pub record RaidVault : Type 0 where
  pub balances : JsMap ℕ ℕ
  -- Whether a store is wired.
  pub stored : Bool
  pub writes : List (ℕ × ℕ)

pub new_vault : Bool → RaidVault
new_vault stored = record { balances = []; stored = stored; writes = [] }

pub get_balance : ℕ → RaidVault → ℕ
get_balance a s = get_or (get a s.balances) 0

persist : ℕ → ℕ → RaidVault → RaidVault
persist a balance s = if s.stored then record s { writes = (a, balance) ∷ s.writes } else s

-- Each operation returns the manager and the number that the method returns.
pub add_to : ℕ → ℕ → RaidVault → RaidVault × ℕ
unfolding get_balance persist
add_to a amount s =
    if leb amount 0
    then (s, get_balance a s)
    else (let next = get_balance a s + amount in
        (persist a next (record s { balances = set a next s.balances }), next))

pub debit : ℕ → ℕ → RaidVault → RaidVault × ℕ
unfolding get_balance persist
debit a amount s =
    let balance = get_balance a s in
    if leb balance 0 || leb amount 0
    then (s, 0)
    else (let taken = min amount balance in
        let next = balance - taken in
        (persist a next (record s { balances = set a next s.balances }), taken))

pub get_total : RaidVault → ℕ
get_total s = total (λ b. b) s.balances

-- The loop of `restore`: the balances and the count.
pub restore_loop : List (ℕ × ℕ) → JsMap ℕ ℕ × ℕ → JsMap ℕ ℕ × ℕ
restore_loop [] acc = acc
restore_loop ((a, b) ∷ rest) (m, n) =
    restore_loop rest (if ltb 0 b then (set a b m, n + 1) else (m, n))

pub restore : Option (List (ℕ × ℕ)) → RaidVault → RaidVault × ℕ
unfolding restore_loop
restore persisted s =
    if s.stored
    then elim persisted [
      | none ↦ (s, 0)
      | some rows ↦
          (let (m, n) = restore_loop rows (s.balances, 0) in (record s { balances = m }, n))
    ]
    else (s, 0)

-- A call that changes the treasury.
pub data Call : Type 0 where
  adds debits : ℕ → ℕ → Call

pub step : Call → RaidVault → RaidVault × ℕ
step (adds a n) = add_to a n
step (debits a n) = debit a n

pub run : List Call → RaidVault → RaidVault
run [] s = s
run (c ∷ cs) s = run cs (step c s).0

-- What the store holds when it has taken the writes in order.
pub contents : List (ℕ × ℕ) → JsMap ℕ ℕ
contents [] = []
contents ((a, b) ∷ older) = set a b (contents older)
