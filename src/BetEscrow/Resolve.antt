-- ===== src/BetEscrow/Resolve.antt =====
-- The loop of `resolveRaid` over the attackers' bets: what it adds up, and what it does to the
-- shared bet objects.
use astroid_club.Prelude.{
  [], arith, nat_beq_iff, nat_eq, none, refl, some, ℕ, ◌*◌, ◌+◌, ◌/◌, ◌∙◌, ◌∷◌, ◌≡◌, ◌≢◌, ◌≤◌,
}
use native.Mathlib.Nat.{mul-le-mul_left}
use astroid_club.JsMap.{JsMap, get, IsUnique}
use astroid_club.JsMap.Laws.{get-set}
use astroid_club.JsMap.Sums.{total}
use astroid_club.BetEscrow.{
  Side, attacker, defender, BetStatus, won, lost, Bet, Tally, settle_bet, settle_loop,
}
use astroid_club.BetEscrow.Config.{LossSplit}

abbrev pub amount_at : (ℕ → Bet) → ℕ → ℕ
amount_at o r = (o r).amount

-- The status that a settled bet of the attackers has.
abbrev pub settled : Side → BetStatus
settled attacker = won
settled defender = lost

-- What settling leaves alone in every object.
pub record SameBet (b c : Bet) : Type 0 where
  pub amount : c.amount ≡ b.amount
  pub wallet : c.wallet ≡ b.wallet
  pub raid_id : c.raid_id ≡ b.raid_id

pub settle_loop-SameBet :
    (now : ℕ) (side : Side) (split : LossSplit) (m : JsMap ℕ ℕ) (t : Tally) (r : ℕ)
    → SameBet (t.objects r) ((settle_loop now side split m t).objects r)
unfolding settle_loop settle_bet
settle_loop-SameBet now side split [] t r = record { amount = refl; wallet = refl; raid_id = refl }
settle_loop-SameBet now attacker split ((w, q) ∷ rest) t r =
    ground
      (arith, settle_loop-SameBet now attacker split rest (settle_bet now attacker split w q t) r)
settle_loop-SameBet now defender split ((w, q) ∷ rest) t r =
    ground
      (arith, settle_loop-SameBet now defender split rest (settle_bet now defender split w q t) r)

total-settle_bet :
    (now : ℕ) (side : Side) (split : LossSplit) (w q : ℕ) (m : JsMap ℕ ℕ) (t : Tally)
    → total (amount_at (settle_bet now side split w q t).objects) m ≡ total (amount_at t.objects) m
unfolding settle_bet
total-settle_bet now side split w q [] t = refl
total-settle_bet now attacker split w q ((v, r) ∷ m) t =
    ground (arith, total-settle_bet now attacker split w q m t)
total-settle_bet now defender split w q ((v, r) ∷ m) t =
    ground (arith, total-settle_bet now defender split w q m t)

-- When the attackers win the loop books every bet as returned.
pub settle_loop-returned :
    (now : ℕ) (split : LossSplit) (m : JsMap ℕ ℕ) (t : Tally)
    → (settle_loop now attacker split m t).returned ≡ t.returned + total (amount_at t.objects) m
unfolding settle_loop settle_bet
settle_loop-returned now split [] t = omega arith
settle_loop-returned now split ((w, q) ∷ rest) t = omega (
  arith,
  settle_loop-returned now split rest (settle_bet now attacker split w q t),
  total-settle_bet now attacker split w q rest t,
)

-- When they lose it books every bet as forfeited, and nothing as returned.
pub settle_loop-forfeited :
    (now : ℕ) (split : LossSplit) (m : JsMap ℕ ℕ) (t : Tally)
    → let t' = settle_loop now defender split m t in
      (t'.forfeited ≡ t.forfeited + total (amount_at t.objects) m) × (t'.returned ≡ t.returned)
unfolding settle_loop settle_bet
settle_loop-forfeited now split [] t = omega arith
settle_loop-forfeited now split ((w, q) ∷ rest) t = omega (
  arith,
  settle_loop-forfeited now split rest (settle_bet now defender split w q t),
  total-settle_bet now defender split w q rest t,
)

cuts_le : (a d r : ℕ) → d + r ≤ 10000 → a * d / 10000 + a * r / 10000 ≤ a
cuts_le a d r h = let k : a * (d + r) ≤ a * 10000 = mul-le-mul_left a h in omega arith

-- The two cuts never exceed what is forfeited.
pub settle_loop-cuts :
    (now : ℕ) (split : LossSplit) (m : JsMap ℕ ℕ) (t : Tally)
    → split.defender_bps + split.recirculate_bps ≤ 10000
    → let t' = settle_loop now defender split m t in
      t'.defender_target + t'.recirculate_target + t.forfeited
      ≤ t'.forfeited + t.defender_target + t.recirculate_target
unfolding settle_loop settle_bet
settle_loop-cuts now split [] t h = omega arith
settle_loop-cuts now split ((w, q) ∷ rest) t h = omega (
  arith,
  settle_loop-cuts now split rest (settle_bet now defender split w q t) h,
  cuts_le (t.objects q).amount split.defender_bps split.recirculate_bps h,
)

-- An object that has the final status keeps it, and every object that the map refers to gets it.
settle_loop_keeps :
    (now : ℕ) (side : Side) (split : LossSplit) (m : JsMap ℕ ℕ) (t : Tally) (r : ℕ)
    → (t.objects r).status ≡ settled side
    → ((settle_loop now side split m t).objects r).status ≡ settled side
unfolding settle_loop settle_bet
settle_loop_keeps now side split [] t r h = h
settle_loop_keeps now attacker split ((w, q) ∷ rest) t r h =
    settle_loop_keeps now attacker split rest (settle_bet now attacker split w q t) r (ground arith)
settle_loop_keeps now defender split ((w, q) ∷ rest) t r h =
    settle_loop_keeps now defender split rest (settle_bet now defender split w q t) r (ground arith)

pub settle_loop-status :
    (now : ℕ) (side : Side) (split : LossSplit) (m : JsMap ℕ ℕ) (t : Tally) (w r : ℕ)
    → get w m ≡ some r
    → ((settle_loop now side split m t).objects r).status ≡ settled side
unfolding settle_loop settle_bet
settle_loop-status now side split [] t w r e = cc
settle_loop-status now attacker split ((v, q) ∷ rest) t w r e = ground (
  arith,
  settle_loop_keeps now attacker split rest (settle_bet now attacker split v q t) r,
  settle_loop-status now attacker split rest (settle_bet now attacker split v q t) w r,
)
settle_loop-status now defender split ((v, q) ∷ rest) t w r e = ground (
  arith,
  settle_loop_keeps now defender split rest (settle_bet now defender split v q t) r,
  settle_loop-status now defender split rest (settle_bet now defender split v q t) w r,
)

-- An object that no entry refers to stays as it is.
pub settle_loop_others :
    (now : ℕ) (side : Side) (split : LossSplit) (m : JsMap ℕ ℕ) (t : Tally) (r : ℕ)
    → IsUnique m
    → ((w : ℕ) → get w m ≢ some r)
    → (settle_loop now side split m t).objects r ≡ t.objects r
unfolding settle_loop settle_bet
settle_loop_others now side split [] t r u h = refl
settle_loop_others now attacker split ((v, q) ∷ rest) t r u h =
    let ne : r ≢ q = λ e. h v (ground (arith, e)) in
    settle_loop_others now attacker split rest (settle_bet now attacker split v q t) r u.1
      (λ w e. h w (ground (arith, e, nat_beq_iff w v)))
    ∙ ground (arith, ne)
settle_loop_others now defender split ((v, q) ∷ rest) t r u h =
    let ne : r ≢ q = λ e. h v (ground (arith, e)) in
    settle_loop_others now defender split rest (settle_bet now defender split v q t) r u.1
      (λ w e. h w (ground (arith, e, nat_beq_iff w v)))
    ∙ ground (arith, ne)

-- Each winner is paid his own bet back.
pub settle_loop-payouts :
    (now : ℕ) (split : LossSplit) (m : JsMap ℕ ℕ) (t : Tally) (w : ℕ)
    → IsUnique m
    → get w (settle_loop now attacker split m t).winner_payouts
      ≡ elim (get w m) [ none ↦ get w t.winner_payouts | some r ↦ some (t.objects r).amount ]
unfolding settle_loop settle_bet
settle_loop-payouts now split [] t w u = refl
settle_loop-payouts now split ((v, q) ∷ rest) t w u = ground (
  arith,
  get-set w v (t.objects q).amount t.winner_payouts,
  settle_loop-payouts now split rest (settle_bet now attacker split v q t) w u.1,
)
