-- ===== src/Refinery/History.antt =====
-- The tokens of all refineries over any history of calls.
use astroid_club.Prelude.{
  List, Option-cases, [], arith, if_keeps, inl, inr, min, nat_eq, refl, some, ℕ, ◌+◌, ◌==◌, ◌∷◌,
  ◌≡◌,
}
use astroid_club.Prelude.Fraction.{Fraction}
use astroid_club.JsMap.{get, set}
use astroid_club.JsMap.Laws.{set-IsUnique}
use astroid_club.JsMap.Sums.{total-set}
use astroid_club.Power.{Overrides, get_stake_tier}
use astroid_club.Refinery.{
  Refinery, Manager, Update, new_manager, put, refinery_of, add_to_refinery, debit, taken_from,
  contributed, update_miner_contribution, distribute_refinery, distribute_all,
  get_total_refinery_balance,
}
use astroid_club.Refinery.Paying.{
  AllSound, distributed, put-AllSound, refinery_of-Sound, put-total, paid_in,
  distribute_refinery-Pays, sum_paid, distribute_all-Pays,
}

-- A call that changes the refineries.
pub data Call : Type 0 where
  adds : (now asteroid amount : ℕ) → Call
  debits : (asteroid amount : ℕ) → Call
  contributes : (now : ℕ) → Overrides → Fraction → Update → Call
  distributes : (now asteroid : ℕ) → Call
  distributes_all : ℕ → Call

unfoldable pub apply : Call → Manager → Manager
apply (adds now a n) m = (add_to_refinery now a n m).0
apply (debits a n) m = (debit a n m).0
apply (contributes now o price u) m = update_miner_contribution o price now u m
apply (distributes now a) m = (distribute_refinery now a m).0
apply (distributes_all now) m = (distribute_all now m).0

-- What a call adds, what it carries off, and what it pays to miners.
abbrev pub added_by : Call → ℕ
added_by (adds now a n) = n
added_by (debits a n) = 0
added_by (contributes now o price u) = 0
added_by (distributes now a) = 0
added_by (distributes_all now) = 0

abbrev pub raided_by : Call → Manager → ℕ
raided_by (adds now a n) m = 0
raided_by (debits a n) m = (debit a n m).1
raided_by (contributes now o price u) m = 0
raided_by (distributes now a) m = 0
raided_by (distributes_all now) m = 0

abbrev pub paid_by : Call → Manager → ℕ
paid_by (adds now a n) m = 0
paid_by (debits a n) m = 0
paid_by (contributes now o price u) m = 0
paid_by (distributes now a) m = paid_in (distribute_refinery now a m).1
paid_by (distributes_all now) m = sum_paid (distribute_all now m).1

-- The refineries after a history (newest first), and what it added, carried off and paid.
unfoldable pub after : Manager → List Call → Manager
after m [] = m
after m (x ∷ older) = apply x (after m older)

unfoldable pub added : List Call → ℕ
added [] = 0
added (x ∷ older) = added_by x + added older

unfoldable pub raided : Manager → List Call → ℕ
raided m [] = 0
raided m (x ∷ older) = raided_by x (after m older) + raided m older

unfoldable pub paid : Manager → List Call → ℕ
paid m [] = 0
paid m (x ∷ older) = paid_by x (after m older) + paid m older

-- What one call does to the tokens.
abbrev Balanced : Call → Manager → Type 0
Balanced x m =
    let m' = apply x m in
    AllSound m'
    × ((get_total_refinery_balance m' + raided_by x m + paid_by x m
          ≡ get_total_refinery_balance m + added_by x)
        × (distributed m' ≡ distributed m + paid_by x m))

adds-Balanced : (now a n : ℕ) (m : Manager) → AllSound m → Balanced (adds now a n) m
unfolding apply add_to_refinery
adds-Balanced now a n m s =
    let r = refinery_of now a m in
    let r' : Refinery = record r { balance = r.balance + n; pending = r.pending + n } in
    let good = refinery_of-Sound now a m s in
    (
      put-AllSound a r' m s (ground (arith, good.0), good.1),
      (
        omega (arith, put-total (λ x. x.balance) now a r' m refl),
        omega (arith, put-total (λ x. x.total_distributed) now a r' m refl),
      ),
    )

-- A change that carries off `x.1`.
abbrev Raids : Manager × ℕ → Manager → Type 0
Raids x m =
    AllSound x.0
    × ((get_total_refinery_balance x.0 + x.1 ≡ get_total_refinery_balance m)
        × (distributed x.0 ≡ distributed m))

unchanged : (m : Manager) → AllSound m → Raids (m, 0) m
unchanged m s = (s, (ground arith, refl))

taken_from-Raids :
    (a n : ℕ) (r : Refinery) (m : Manager)
    → get a m.refineries ≡ some r
    → AllSound m
    → let taken = min n r.balance in Raids (put a (taken_from taken r) m, taken) m
taken_from-Raids a n r m e s =
    let r' = taken_from (min n r.balance) r in
    (
      put-AllSound a r' m s (ground (arith, (s a r e).0), (s a r e).1),
      (
        ground (arith, e, total-set (λ x. x.balance) a r' m.refineries),
        ground (arith, e, total-set (λ x. x.total_distributed) a r' m.refineries),
      ),
    )

debit-Raids : (a n : ℕ) (m : Manager) → AllSound m → Raids (debit a n m) m
unfolding debit
debit-Raids a n m s = elim (Option-cases (get a m.refineries)) [
  | inl e ↦ rw (debit, e) (unchanged m s)
  | inr (r, e) ↦
      rw (debit, e)
        (if_keeps (λ x. Raids x m) (n == 0) _ _ (unchanged m s) (taken_from-Raids a n r m e s))
]

debits-Balanced : (a n : ℕ) (m : Manager) → AllSound m → Balanced (debits a n) m
unfolding apply
debits-Balanced a n m s =
    let d = debit-Raids a n m s in (d.0, (omega (arith, d.1.0), omega (arith, d.1.1)))

contributes-Balanced :
    (now : ℕ) (o : Overrides) (price : Fraction) (u : Update) (m : Manager)
    → AllSound m
    → Balanced (contributes now o price u) m
unfolding apply update_miner_contribution
contributes-Balanced now o price u m s =
    let r = refinery_of now u.asteroid m in
    let c = contributed (get_stake_tier o price u.stake).drill u (get u.wallet r.contributions) in
    let r' : Refinery = record r { contributions = set u.wallet c r.contributions } in
    let good = refinery_of-Sound now u.asteroid m s in
    (
      put-AllSound u.asteroid r' m s (good.0, set-IsUnique u.wallet c r.contributions good.1),
      (
        omega (arith, put-total (λ x. x.balance) now u.asteroid r' m refl),
        omega (arith, put-total (λ x. x.total_distributed) now u.asteroid r' m refl),
      ),
    )

apply-Balanced : (x : Call) (m : Manager) → AllSound m → Balanced x m
unfolding apply
apply-Balanced (adds now a n) m s = adds-Balanced now a n m s
apply-Balanced (debits a n) m s = debits-Balanced a n m s
apply-Balanced (contributes now o price u) m s = contributes-Balanced now o price u m s
apply-Balanced (distributes now a) m s =
    let p = distribute_refinery-Pays now a m s in (p.0, (omega (arith, p.1.0), p.1.1))
apply-Balanced (distributes_all now) m s =
    let p = distribute_all-Pays now m s in (p.0, (omega (arith, p.1.0), p.1.1))

pub after-AllSound :
    (interval now : ℕ) (xs : List Call) → AllSound (after (new_manager interval now) xs)
unfolding after new_manager
after-AllSound interval now [] = λ a r e. ground (arith, e)
after-AllSound interval now (x ∷ older) =
    (apply-Balanced x (after (new_manager interval now) older)
      (after-AllSound interval now older)).0

-- After any history of calls on new refineries, what they hold together, what was carried off and what
-- was paid to miners make up what was added, and their totals of what they distributed make up what
-- was paid.
pub history_conserves :
    (interval now : ℕ) (xs : List Call)
    → let m = new_manager interval now in
      (get_total_refinery_balance (after m xs) + raided m xs + paid m xs ≡ added xs)
      × (distributed (after m xs) ≡ paid m xs)
unfolding after raided paid added new_manager
history_conserves interval now [] = (ground arith, ground arith)
history_conserves interval now (x ∷ older) =
    let m = after (new_manager interval now) older in
    let step = apply-Balanced x m (after-AllSound interval now older) in
    let before = history_conserves interval now older in
    (omega (arith, step.1.0, before.0), omega (arith, step.1.1, before.1))
