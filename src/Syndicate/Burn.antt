-- ===== src/Syndicate/Burn.antt =====
-- The burn of the creation cost in `createSyndicate`: from the largest stake down.
use astroid_club.Prelude.{
  List, [], arith, if◌then◌else◌, leb, ltb, min, nat_eq, refl, sum_by, ℕ, ◌+◌, ◌-◌, ◌∷◌, ◌≡◌, ◌≤◌,
}

-- What the stake manager reports of one stake, and what it is asked to take from it.
pub record Stake : Type 0 where
  pub asteroid : ℕ
  pub amount : ℕ

abbrev stake_amount : Stake → ℕ
stake_amount s = s.amount

-- `stakes.sort((a, b) => b.amount - a.amount)`, which is stable.
insert_desc : Stake → List Stake → List Stake
insert_desc s [] = s ∷ []
insert_desc s (t ∷ ts) = if ltb s.amount t.amount then t ∷ insert_desc s ts else s ∷ t ∷ ts

pub sort_desc : List Stake → List Stake
unfolding insert_desc
sort_desc [] = []
sort_desc (s ∷ ss) = insert_desc s (sort_desc ss)

burn_loop : ℕ → List Stake → List Stake
burn_loop remaining [] = []
burn_loop remaining (s ∷ ss) =
    let taken = min s.amount remaining in
    let rest = record s { amount = taken } ∷ burn_loop (remaining - taken) ss in
    if leb remaining 0 then [] else rest

-- The calls of `unstake`, in order.
unfoldable pub burn_plan : ℕ → List Stake → List Stake
unfolding burn_loop sort_desc
burn_plan cost stakes = burn_loop cost (sort_desc stakes)

insert_desc-sum :
    (s : Stake) (ts : List Stake)
    → sum_by stake_amount (insert_desc s ts) ≡ s.amount + sum_by stake_amount ts
unfolding insert_desc
insert_desc-sum s [] = omega arith
insert_desc-sum s (t ∷ ts) = ground (arith, insert_desc-sum s ts)

sort_desc-sum : (ss : List Stake) → sum_by stake_amount (sort_desc ss) ≡ sum_by stake_amount ss
unfolding sort_desc
sort_desc-sum [] = refl
sort_desc-sum (s ∷ ss) = omega (arith, insert_desc-sum s (sort_desc ss), sort_desc-sum ss)

burn_loop-sum :
    (n : ℕ) (ss : List Stake)
    → sum_by stake_amount (burn_loop n ss) ≡ min n (sum_by stake_amount ss)
unfolding burn_loop
burn_loop-sum n [] = omega arith
burn_loop-sum n (s ∷ ss) = ground (arith, burn_loop-sum (n - min s.amount n) ss)

-- Where the stakes cover the cost, what is unstaked is the cost exactly.
pub burn_plan_exact :
    (cost : ℕ) (stakes : List Stake)
    → cost ≤ sum_by (λ (s : Stake). s.amount) stakes
    → sum_by (λ (s : Stake). s.amount) (burn_plan cost stakes) ≡ cost
unfolding burn_plan
burn_plan_exact cost stakes h =
    omega (arith, burn_loop-sum cost (sort_desc stakes), sort_desc-sum stakes)
