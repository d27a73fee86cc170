-- ===== src/Refinery/Payout.antt =====
-- What a refinery pays: the payouts make up the sum that is booked, which is the pending amount but
-- for the roundings.
use astroid_club.Prelude.{[], arith, nat_eq, refl, some, ℕ, ◌*◌, ◌+◌, ◌/◌, ◌<◌, ◌∷◌, ◌≡◌, ◌≤◌}
use astroid_club.JsMap.{JsMap, size}
use astroid_club.Refinery.{
  Contribution, Refinery, score_loop, pay_loop, shares, total_power, total_score,
}
use native.Mathlib.Nat.{div-add-mod}

share_below : (n s sum : ℕ) → 0 < sum → sum * (n * s / sum) ≤ n * s
share_below n s sum h = grind (arith, div-add-mod (n * s) sum)

share_above : (n s sum : ℕ) → 0 < sum → n * s < sum * (n * s / sum) + sum
share_above n s sum h = omega (arith, div-add-mod (n * s) sum)

pub pay_loop-sum :
    (n sum : ℕ) (m : JsMap ℕ ℕ) → total_score (pay_loop n sum m).0 ≡ (pay_loop n sum m).1
unfolding pay_loop
pay_loop-sum n sum [] = refl
pay_loop-sum n sum ((w, s) ∷ rest) = ground (arith, pay_loop-sum n sum rest)

pay_loop-cons :
    (n sum w s : ℕ) (rest : JsMap ℕ ℕ)
    → (pay_loop n sum ((w, s) ∷ rest)).1 ≡ n * s / sum + (pay_loop n sum rest).1
unfolding pay_loop
pay_loop-cons n sum w s rest = ground arith

below_step :
    (n s t a b sum paid : ℕ)
    → paid ≡ a + b
    → sum * a ≤ n * s
    → sum * b ≤ n * t
    → sum * paid ≤ n * (s + t)
below_step n s t a b sum paid e f g = grind arith

pay_nothing : (n sum : ℕ) → sum * (pay_loop n sum []).1 ≤ n * 0
unfolding pay_loop
pay_nothing n sum = omega arith

pay_loop-below :
    (n sum : ℕ) (m : JsMap ℕ ℕ) → 0 < sum → sum * (pay_loop n sum m).1 ≤ n * total_score m
pay_loop-below n sum [] h = pay_nothing n sum
pay_loop-below n sum ((w, s) ∷ rest) h =
    below_step n s (total_score rest) (n * s / sum) (pay_loop n sum rest).1 sum
      (pay_loop n sum ((w, s) ∷ rest)).1 (pay_loop-cons n sum w s rest) (share_below n s sum h)
      (pay_loop-below n sum rest h)

pay_loop-above :
    (n sum : ℕ) (m : JsMap ℕ ℕ)
    → 0 < sum
    → n * total_score m ≤ sum * (pay_loop n sum m).1 + sum * size m
pay_loop-above n sum [] h = omega arith
pay_loop-above n sum ((w, s) ∷ rest) h =
    grind (arith, pay_loop-cons n sum w s rest, share_above n s sum h, pay_loop-above n sum rest h)

size-score_loop : (all : ℕ) (m : JsMap ℕ Contribution) → size (score_loop all m) ≡ size m
unfolding score_loop
size-score_loop all [] = refl
size-score_loop all ((w, c) ∷ m) = ground (arith, size-score_loop all m)

divide_below : (a b sum : ℕ) → 0 < sum → sum * a ≤ b * sum → a ≤ b
divide_below a b sum h e = grind arith

pub shares_paying :
    (r : Refinery) (payouts : JsMap ℕ ℕ) (n : ℕ)
    → shares r ≡ some (payouts, n)
    → let scores = score_loop (total_power r.contributions) r.contributions in
      (0 < total_score scores)
      × ((0 < total_power r.contributions)
          × (pay_loop r.pending (total_score scores) scores ≡ (payouts, n)))
unfolding shares
shares_paying r payouts n h = ground (arith, h)

-- Where a refinery pays out, the payouts add up to the amount that is booked as paid, which is no more
-- than the pending amount and falls short of it by at most one token for each contributor.
pub shares_bounds :
    (r : Refinery) (payouts : JsMap ℕ ℕ) (n : ℕ)
    → shares r ≡ some (payouts, n)
    → (total_score payouts ≡ n) × ((n ≤ r.pending) × (r.pending ≤ n + size r.contributions))
shares_bounds r payouts n h =
    let scores = score_loop (total_power r.contributions) r.contributions in
    let sum = total_score scores in
    let facts = shares_paying r payouts n h in
    (
      ground (arith, facts.1.1, pay_loop-sum r.pending sum scores),
      (
        divide_below n r.pending sum facts.0
            (ground (arith, facts.1.1, pay_loop-below r.pending sum scores facts.0)),
        divide_below r.pending (n + size r.contributions) sum facts.0 (
            ground (
              arith,
              facts.1.1,
              pay_loop-above r.pending sum scores facts.0,
              size-score_loop (total_power r.contributions) r.contributions,
            )),
      ),
    )
