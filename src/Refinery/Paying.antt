-- ===== src/Refinery/Paying.antt =====
-- What a payout does to the tokens of all refineries.
use astroid_club.Prelude.{
  List, Option, Option-cases, [], arith, inl, inr, nat_eq, none, refl, some, sum_by, ℕ, ◌+◌, ◌∷◌,
  ◌≡◌, ◌≤◌,
}
use astroid_club.JsMap.{JsMap, get, keys, IsUnique}
use astroid_club.JsMap.Laws.{get-set}
use astroid_club.JsMap.Sums.{total, total-set}
use astroid_club.Refinery.{
  Refinery, Manager, Distribution, new_refinery, put, refinery_of, shares, paid_out,
  distribute_refinery, distribute_loop, distribute_all, total_score, get_total_refinery_balance,
}
use astroid_club.Refinery.Payout.{shares_bounds}

-- What is pending is there, and no wallet is listed twice.
abbrev pub Sound : Refinery → Type 0
Sound r = (r.pending ≤ r.balance) × IsUnique r.contributions

abbrev pub AllSound : Manager → Type 0
AllSound m = (a : ℕ) (r : Refinery) → get a m.refineries ≡ some r → Sound r

abbrev pub distributed : Manager → ℕ
distributed m = total (λ r. r.total_distributed) m.refineries

pub put-AllSound :
    (a : ℕ) (r : Refinery) (m : Manager) → AllSound m → Sound r → AllSound (put a r m)
put-AllSound a r m s h b q e = ground (arith, get-set b a r m.refineries, s b q, h, e)

pub refinery_of-Sound : (now a : ℕ) (m : Manager) → AllSound m → Sound (refinery_of now a m)
refinery_of-Sound now a m s = elim (Option-cases (get a m.refineries)) [
  | inl e ↦ ground (arith, e)
  | inr e ↦ ground (arith, e.1, s a e.0 e.1)
]

-- What `put` changes in a sum over the refineries.
pub put-total :
    (f : Refinery → ℕ) (now a : ℕ) (r : Refinery) (m : Manager)
    → f (new_refinery now) ≡ 0
    → total f (put a r m).refineries + f (refinery_of now a m) ≡ total f m.refineries + f r
put-total f now a r m z = elim (Option-cases (get a m.refineries)) [
  | inl e ↦ ground (arith, e, z, total-set f a r m.refineries)
  | inr e ↦ ground (arith, e.1, total-set f a r m.refineries)
]

-- What a result paid.
abbrev pub paid_in : Option Distribution → ℕ
paid_in none = 0
paid_in (some d) = total_score d.payouts

-- A change that pays `n`.
abbrev pub Pays : ℕ → Manager → Manager → Type 0
Pays n m m' =
    AllSound m'
    × ((get_total_refinery_balance m' + n ≡ get_total_refinery_balance m)
        × (distributed m' ≡ distributed m + n))

nothing-Pays : (m : Manager) → AllSound m → Pays 0 m m
nothing-Pays m s = (s, (ground arith, ground arith))

paid_out-Pays :
    (now a : ℕ) (m : Manager) (r : Refinery) (payouts : JsMap ℕ ℕ) (n : ℕ)
    → AllSound m
    → get a m.refineries ≡ some r
    → shares r ≡ some (payouts, n)
    → Pays (total_score payouts) m (put a (paid_out now n r) m)
paid_out-Pays now a m r payouts n s e f =
    let b = shares_bounds r payouts n f in
    let r' = paid_out now n r in
    (
      put-AllSound a r' m s (ground arith, tt),
      (
        ground (arith, e, b.0, b.1.0, (s a r e).0, total-set (λ x. x.balance) a r' m.refineries),
        ground (arith, e, b.0, total-set (λ x. x.total_distributed) a r' m.refineries),
      ),
    )

pub distribute_refinery-Pays :
    (now a : ℕ) (m : Manager)
    → AllSound m
    → let x = distribute_refinery now a m in Pays (paid_in x.1) m x.0
unfolding distribute_refinery
distribute_refinery-Pays now a m s = elim (Option-cases (get a m.refineries)) [
  | inl e ↦ rw (distribute_refinery, e) (nothing-Pays m s)
  | inr (r, e) ↦ elim (Option-cases (shares r)) [
    | inl f ↦ rw (distribute_refinery, e, f) (nothing-Pays m s)
    | inr ((payouts, n), f) ↦
        rw (distribute_refinery, e, f) (paid_out-Pays now a m r payouts n s e f)
  ]
]

unfoldable pub sum_paid : List Distribution → ℕ
sum_paid = sum_by (λ d. total_score d.payouts)

pays_cons :
    (o : Option Distribution) (ds : List Distribution)
    → sum_paid (elim o [ none ↦ ds | some d ↦ d ∷ ds ]) ≡ paid_in o + sum_paid ds
unfolding sum_paid
pays_cons none ds = omega arith
pays_cons (some d) ds = refl

distribute_loop-Pays :
    (now : ℕ) (where_to : List ℕ) (m : Manager)
    → AllSound m
    → let x = distribute_loop now where_to m in Pays (sum_paid x.1) m x.0
unfolding distribute_loop sum_paid
distribute_loop-Pays now [] m s = nothing-Pays m s
distribute_loop-Pays now (a ∷ more) m s =
    let one = distribute_refinery now a m in
    let first = distribute_refinery-Pays now a m s in
    let rest = distribute_loop-Pays now more one.0 first.0 in
    let both = pays_cons one.1 (distribute_loop now more one.0).1 in
    (rest.0, (omega (arith, first.1.0, rest.1.0, both), omega (arith, first.1.1, rest.1.1, both)))

pub distribute_all-Pays :
    (now : ℕ) (m : Manager) → AllSound m → let x = distribute_all now m in Pays (sum_paid x.1) m x.0
unfolding distribute_all
distribute_all-Pays now m s = distribute_loop-Pays now (keys m.refineries) m s
