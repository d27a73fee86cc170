-- ===== src/Refinery/Forecast.antt =====
-- The estimate that `getMinerPendingShare` shows, against the payout.
use astroid_club.Prelude.{
  Bool-cases, Option-cases, [], arith, get_or, inl, inr, nat_eq, refl, some, sym, ℕ, ◌*◌, ◌/◌, ◌<◌,
  ◌==◌, ◌∷◌, ◌≡◌,
}
use mathlib.Core.Option
use astroid_club.JsMap.{JsMap, get, IsUnique}
use astroid_club.Refinery.{
  Contribution, Refinery, Manager, Distribution, Estimate, score_loop, miner_score, pay_loop,
  shares, total_power, total_score, distribute_refinery, get_miner_pending_share,
}
use astroid_club.Refinery.Payout.{shares_paying}
use native.Mathlib.Nat.{div-add-mod}

pub get-score_loop :
    (w all : ℕ) (m : JsMap ℕ Contribution)
    → get w (score_loop all m) ≡ Option.map (miner_score all) (get w m)
unfolding score_loop
get-score_loop w all [] = refl
get-score_loop w all ((v, c) ∷ m) = ground (arith, get-score_loop w all m)

score_loop-IsUnique :
    (all : ℕ) (m : JsMap ℕ Contribution) → IsUnique m → IsUnique (score_loop all m)
unfolding score_loop
score_loop-IsUnique all [] u = tt
score_loop-IsUnique all ((v, c) ∷ m) u =
    (ground (arith, u.0, get-score_loop v all m), score_loop-IsUnique all m u.1)

share_of_none : (n sum : ℕ) → 0 < sum → n * 0 / sum ≡ 0
share_of_none n sum h = grind (arith, div-add-mod (n * 0) sum)

get-pay_loop :
    (w n sum : ℕ) (m : JsMap ℕ ℕ)
    → 0 < sum
    → IsUnique m
    → get_or (get w (pay_loop n sum m).0) 0 ≡ n * get_or (get w m) 0 / sum
unfolding pay_loop
get-pay_loop w n sum [] h u = sym (share_of_none n sum h)
get-pay_loop w n sum ((v, s) ∷ rest) h u = elim (Bool-cases (w == v)) [
  | inl e ↦ ground (arith, e, get-pay_loop w n sum rest h u.1, share_of_none n sum h, u.0)
  | inr e ↦ ground (arith, e, get-pay_loop w n sum rest h u.1)
]

forecast_of :
    (a w : ℕ) (m : Manager) (r : Refinery) (e : Estimate)
    → get a m.refineries ≡ some r
    → 0 < total_power r.contributions
    → let scores = score_loop (total_power r.contributions) r.contributions in
      0 < total_score scores
      → get_miner_pending_share a w m ≡ some e
      → r.pending * get_or (get w scores) 0 / total_score scores ≡ e.amount
unfolding get_miner_pending_share
forecast_of a w m r e h power pos q =
    let all = total_power r.contributions in
    let found = get-score_loop w all r.contributions in
    elim (Option-cases (get w r.contributions)) [
      | inl none_there ↦ ground (
        arith,
        h,
        q,
        none_there,
        found,
        share_of_none r.pending (total_score (score_loop all r.contributions)) pos,
      )
      | inr there ↦ ground (arith, h, q, there.1, found, power, pos)
    ]

distribute_shares :
    (now a : ℕ) (m : Manager) (r : Refinery) (d : Distribution)
    → get a m.refineries ≡ some r
    → (distribute_refinery now a m).1 ≡ some d
    → shares r ≡ some (d.payouts, d.total_distributed)
unfolding distribute_refinery
distribute_shares now a m r d h q = elim (Option-cases (shares r)) [
  | inl e ↦ ground (arith, h, q, e)
  | inr e ↦ ground (arith, h, q, e.1)
]

-- Where a refinery, in which no wallet is listed twice, pays out, each wallet gets what the estimate
-- said just before, which is nothing for a wallet that the result does not name.
pub payout_as_forecast :
    (now a w : ℕ) (m : Manager) (r : Refinery) (d : Distribution) (e : Estimate)
    → get a m.refineries ≡ some r
    → IsUnique r.contributions
    → (distribute_refinery now a m).1 ≡ some d
    → get_miner_pending_share a w m ≡ some e
    → get_or (get w d.payouts) 0 ≡ e.amount
payout_as_forecast now a w m r d e h u hd he =
    let all = total_power r.contributions in
    let scores = score_loop all r.contributions in
    let facts =
      shares_paying r d.payouts d.total_distributed (distribute_shares now a m r d h hd) in
    ground (
      arith,
      facts.1.1,
      get-pay_loop w r.pending (total_score scores) scores facts.0
          (score_loop-IsUnique all r.contributions u),
      forecast_of a w m r e h facts.1.0 facts.0 he,
    )
