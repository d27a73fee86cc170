-- ===== src/Distribution/Payout.antt =====
-- A payout moves tokens from the refineries to the pending yield of the miners.
use astroid_club.Prelude.{
  List, [], ap, arith, false, if_cases, if◌then◌else◌, nat_eq, refl, subst, sum_by, sym, ℕ, ◌+◌,
  ◌==◌, ◌∙◌, ◌∷◌, ◌≡◌,
}
use astroid_club.JsMap.{JsMap}
use astroid_club.JsMap.Laws.{get-set}
use astroid_club.JsMap.Sums.{total-set}
use astroid_club.Refinery.{Distribution, distribute_all, total_score, get_total_refinery_balance}
use astroid_club.Refinery.Paying.{AllSound, sum_paid, distribute_all-Pays}
use astroid_club.StakeManager.Credits.{
  Credits, at, add_pending_yield, get_pending_yield, get_total_pending_yield,
}
use astroid_club.Distribution.{Service, pay, pay_all, pay_results, perform_distribution}

-- What payouts give to a wallet.
pub amount_to : ℕ → JsMap ℕ ℕ → ℕ
amount_to w [] = 0
amount_to w ((v, n) ∷ rest) = let more = amount_to w rest in if v == w then n + more else more

unfoldable pub owed : ℕ → List Distribution → ℕ
unfolding amount_to
owed w = sum_by (λ d. amount_to w d.payouts)

-- One credit, in the wallet's balance and in the sum of all.
pub add-at :
    (w v a n : ℕ) (c : Credits)
    → at w (add_pending_yield v a n c).pending ≡ at w c.pending + (if v == w then n else 0)
unfolding add_pending_yield
add-at w v a n c = ground (arith, get-set w v (at v c.pending + n) c.pending)

pub add-total :
    (v a n : ℕ) (c : Credits)
    → get_total_pending_yield (add_pending_yield v a n c) ≡ get_total_pending_yield c + n
unfolding add_pending_yield get_total_pending_yield
add-total v a n c = ground (arith, total-set (λ x. x) v (at v c.pending + n) c.pending)

-- The payouts only credit, where the chain is off.
abbrev Credited : ℕ → ℕ → ℕ → Service → Service → Type 0
Credited w mine all s s' =
    (s'.refinery ≡ s.refinery)
    × ((s'.chain_enabled ≡ false)
        × ((at w s'.credits.pending ≡ at w s.credits.pending + mine)
            × (get_total_pending_yield s'.credits ≡ get_total_pending_yield s.credits + all)))

pay-Credited :
    (w a v n : ℕ) (s : Service)
    → s.chain_enabled ≡ false
    → Credited w (if v == w then n else 0) n s (pay a (v, n) s)
unfolding pay
pay-Credited w a v n s off =
    if_cases (λ x. Credited w (if v == w then n else 0) n s x) s.chain_enabled _
      (record s { credits = add_pending_yield v a n s.credits })
      (λ on. absurd (ground (arith, on, off)))
      (λ h. (refl, (off, (add-at w v a n s.credits, add-total v a n s.credits))))

-- Credits one after the other.
then_Credited :
    (w i j k l : ℕ) (s t u : Service)
    → Credited w i k s t
    → Credited w j l t u
    → Credited w (i + j) (k + l) s u
then_Credited w i j k l s t u f r =
    (r.0 ∙ f.0, (r.1.0, (omega (arith, f.1.1.0, r.1.1.0), omega (arith, f.1.1.1, r.1.1.1))))

amount_to-cons :
    (w v n : ℕ) (rest : JsMap ℕ ℕ)
    → amount_to w ((v, n) ∷ rest) ≡ (if v == w then n else 0) + amount_to w rest
unfolding amount_to
amount_to-cons w v n rest = ground arith

pay_all-Credited :
    (w a : ℕ) (ps : JsMap ℕ ℕ) (s : Service)
    → s.chain_enabled ≡ false
    → Credited w (amount_to w ps) (total_score ps) s (pay_all a ps s)
unfolding pay_all amount_to
pay_all-Credited w a [] s off = (refl, (off, (ground arith, ground arith)))
pay_all-Credited w a ((v, n) ∷ rest) s off =
    let one = pay-Credited w a v n s off in
    let more = pay_all-Credited w a rest (pay a (v, n) s) one.1.0 in
    subst (λ x. Credited w x (n + total_score rest) s (pay_all a rest (pay a (v, n) s)))
      (sym (amount_to-cons w v n rest))
      (then_Credited w (if v == w then n else 0) (amount_to w rest) n (total_score rest) s
        (pay a (v, n) s) (pay_all a rest (pay a (v, n) s)) one more)

pay_results-Credited :
    (w : ℕ) (ds : List Distribution) (s : Service)
    → s.chain_enabled ≡ false
    → Credited w (owed w ds) (sum_paid ds) s (pay_results ds s)
unfolding pay_results owed sum_paid
pay_results-Credited w [] s off = (refl, (off, (ground arith, ground arith)))
pay_results-Credited w (d ∷ ds) s off =
    let first = pay_all-Credited w d.asteroid d.payouts s off in
    let rest = pay_results-Credited w ds (pay_all d.asteroid d.payouts s) first.1.0 in
    let next = pay_all d.asteroid d.payouts s in
    then_Credited w (amount_to w d.payouts) (owed w ds) (total_score d.payouts) (sum_paid ds) s next
      (pay_results ds next) first rest

-- Where the chain is off and the refineries hold what is pending in them, a distribution adds to each
-- wallet's pending yield what its results name for it, and the refineries' balances and the pending
-- yield of all make up together what they did before.
pub distribution_conserves :
    (now w : ℕ) (s : Service)
    → s.chain_enabled ≡ false
    → AllSound s.refinery
    → let x = perform_distribution now s in
      (get_pending_yield w x.0.credits ≡ get_pending_yield w s.credits + owed w x.1)
      × (get_total_refinery_balance x.0.refinery + get_total_pending_yield x.0.credits
          ≡ get_total_refinery_balance s.refinery + get_total_pending_yield s.credits)
unfolding perform_distribution get_pending_yield
distribution_conserves now w s off sound =
    let done = distribute_all now s.refinery in
    let paid = distribute_all-Pays now s.refinery sound in
    let c = pay_results-Credited w done.1 (record s { refinery = done.0 }) off in
    let same = ap get_total_refinery_balance c.0 in
    (c.1.1.0, omega (arith, same, paid.1.0, c.1.1.1))
