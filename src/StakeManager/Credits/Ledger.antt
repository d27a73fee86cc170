-- ===== src/StakeManager/Credits/Ledger.antt =====
-- What the store and the ledger hold of the pending yield after a history of calls.
use astroid_club.Prelude.{
  Bool, List, [], arith, if◌then◌else◌, ltb, nat_eq, none, refl, some, sum_by, true, ℕ, ◌+◌, ◌-◌,
  ◌==◌, ◌∷◌, ◌≡◌,
}
use astroid_club.Prelude.Int.{Number, finite, pos, negsuc, not_finite}
use astroid_club.JsMap.{JsMap, set, delete}
use astroid_club.JsMap.Laws.{get-set, get-delete}
use astroid_club.StakeManager.Credits.{
  Write, put, drop, Entry, credit, claim, redeem, Credits, new_credits, at, add_pending_yield,
  claim_pending_yield, positive, redeem_pending_yield, spend_pending_yield,
}

-- A call that changes the credits.
pub data Call : Type 0 where
  adds : (wallet asteroid amount : ℕ) → Call
  claims : ℕ → Call
  redeems spends : ℕ → Number → Call

unfoldable pub apply : Call → Credits → Credits
apply (adds w a n) c = add_pending_yield w a n c
apply (claims w) c = (claim_pending_yield w c).0
apply (redeems w n) c = (redeem_pending_yield w n c).0
apply (spends w n) c = (spend_pending_yield w n c).0

-- The credits after a history (newest first).
unfoldable pub after : Credits → List Call → Credits
after c [] = c
after c (x ∷ older) = apply x (after c older)

-- What a debit takes, 0 where it is refused.
abbrev pub taken : ℕ → Number → Credits → ℕ
taken w amount c = elim (positive amount) [
  | none ↦ 0
  | some n ↦ if ltb (at w c.pending) n then 0 else n
]

-- What a call spends of a wallet's credits in the game.
abbrev pub spent_by : ℕ → Call → Credits → ℕ
spent_by w (spends v n) c = if v == w then taken v n c else 0
spent_by w (adds v a n) c = 0
spent_by w (claims v) c = 0
spent_by w (redeems v n) c = 0

pub spent : ℕ → Credits → List Call → ℕ
spent w c [] = 0
spent w c (x ∷ older) = spent_by w x (after c older) + spent w c older

-- What the ledger's entries credit to a wallet, and what they debit.
abbrev pub credited_by : ℕ → Entry → ℕ
credited_by w (credit v a n) = if v == w then n else 0
credited_by w (claim v n) = 0
credited_by w (redeem v n) = 0

abbrev pub debited_by : ℕ → Entry → ℕ
debited_by w (credit v a n) = 0
debited_by w (claim v n) = if v == w then n else 0
debited_by w (redeem v n) = if v == w then n else 0

abbrev pub credited : ℕ → Credits → ℕ
credited w c = sum_by (credited_by w) c.entries

abbrev pub debited : ℕ → Credits → ℕ
debited w c = sum_by (debited_by w) c.entries

-- The balance that the last write of a wallet leaves in the store.
unfoldable pub stored : ℕ → List Write → ℕ
stored w [] = 0
stored w (put v n ∷ older) = let rest = stored w older in if v == w then n else rest
stored w (drop v ∷ older) = let rest = stored w older in if v == w then 0 else rest

-- The wiring never changes.
abbrev SameWiring : Credits → Credits → Type 0
SameWiring c d = (c.has_store ≡ d.has_store) × (c.has_ledger ≡ d.has_ledger)

apply-wiring : (x : Call) (c : Credits) → SameWiring (apply x c) c
unfolding apply add_pending_yield claim_pending_yield redeem_pending_yield spend_pending_yield
apply-wiring (adds w a n) c = ground arith
apply-wiring (claims w) c = ground arith
apply-wiring (redeems w n) c = ground arith
apply-wiring (spends w n) c = ground arith

pub after-wiring : (c : Credits) (xs : List Call) → SameWiring (after c xs) c
unfolding after
after-wiring c [] = (refl, refl)
after-wiring c (x ∷ xs) = ground (arith, apply-wiring x (after c xs), after-wiring c xs)

-- The laws of a balance that is put or dropped.
at-set : (v w n : ℕ) (m : JsMap ℕ ℕ) → at v (set w n m) ≡ (if v == w then n else at v m)
at-set v w n m = ground (arith, get-set v w n m)

at-delete : (v w : ℕ) (m : JsMap ℕ ℕ) → at v (delete w m) ≡ (if v == w then 0 else at v m)
at-delete v w m = ground (arith, get-delete v w m)

-- One call keeps a ledger in step with the balance: it may differ by what is spent.
apply-books :
    (w : ℕ) (x : Call) (c : Credits) (s : ℕ)
    → c.has_ledger ≡ true
    → credited w c ≡ at w c.pending + debited w c + s
    → credited w (apply x c)
      ≡ at w (apply x c).pending + debited w (apply x c) + (spent_by w x c + s)
unfolding apply add_pending_yield claim_pending_yield redeem_pending_yield spend_pending_yield
apply-books w (adds v a n) c s l h = ground (arith, l, h, at-set w v (at v c.pending + n) c.pending)
apply-books w (claims v) c s l h = ground (arith, l, h, at-delete w v c.pending)
apply-books w (redeems v (finite (pos n))) c s l h =
    ground (arith, l, h, at-set w v (at v c.pending - n) c.pending, at-delete w v c.pending)
apply-books w (redeems v (finite (negsuc n))) c s l h = ground (arith, h)
apply-books w (redeems v not_finite) c s l h = ground (arith, h)
apply-books w (spends v (finite (pos n))) c s l h =
    ground (arith, l, h, at-set w v (at v c.pending - n) c.pending, at-delete w v c.pending)
apply-books w (spends v (finite (negsuc n))) c s l h = ground (arith, h)
apply-books w (spends v not_finite) c s l h = ground (arith, h)

-- The ledger's credits of a wallet are what is pending, what it debits, and what was spent.
pub after-books :
    (w : ℕ) (store : Bool) (xs : List Call)
    → let c0 = new_credits store true in
      let c = after c0 xs in credited w c ≡ at w c.pending + debited w c + spent w c0 xs
unfolding after spent new_credits
after-books w store [] = omega arith
after-books w store (x ∷ xs) =
    let c0 = new_credits store true in
    apply-books w x (after c0 xs) (spent w c0 xs) ((after-wiring c0 xs).1) (after-books w store xs)

apply-stored :
    (w : ℕ) (x : Call) (c : Credits)
    → c.has_store ≡ true
    → stored w c.writes ≡ at w c.pending
    → stored w (apply x c).writes ≡ at w (apply x c).pending
unfolding apply add_pending_yield claim_pending_yield redeem_pending_yield spend_pending_yield
    stored
apply-stored w (adds v a n) c l h = ground (arith, l, h, at-set w v (at v c.pending + n) c.pending)
apply-stored w (claims v) c l h = ground (arith, l, h, at-delete w v c.pending)
apply-stored w (redeems v (finite (pos n))) c l h =
    ground (arith, l, h, at-set w v (at v c.pending - n) c.pending, at-delete w v c.pending)
apply-stored w (redeems v (finite (negsuc n))) c l h = ground (arith, h)
apply-stored w (redeems v not_finite) c l h = ground (arith, h)
apply-stored w (spends v (finite (pos n))) c l h =
    ground (arith, l, h, at-set w v (at v c.pending - n) c.pending, at-delete w v c.pending)
apply-stored w (spends v (finite (negsuc n))) c l h = ground (arith, h)
apply-stored w (spends v not_finite) c l h = ground (arith, h)

-- The store holds the balance of every wallet.
pub after-stored :
    (w : ℕ) (ledger : Bool) (xs : List Call)
    → let c = after (new_credits true ledger) xs in stored w c.writes ≡ at w c.pending
unfolding after stored new_credits
after-stored w ledger [] = refl
after-stored w ledger (x ∷ xs) =
    let c0 = new_credits true ledger in
    apply-stored w x (after c0 xs) ((after-wiring c0 xs).0) (after-stored w ledger xs)
