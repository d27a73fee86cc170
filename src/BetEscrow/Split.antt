-- ===== src/BetEscrow/Split.antt =====
-- The loops of `resolveRaid` over the defenders' stakes, in whole numbers: the share of a defender
-- is the floor of stake * pool / total stake.
use astroid_club.Prelude.{
  Bool-cases, [], arith, if◌then◌else◌, inl, inr, ltb, nat_beq_iff, nat_eq, none, refl, some, ℕ,
  ◌&&◌, ◌*◌, ◌+◌, ◌/◌, ◌<◌, ◌∷◌, ◌≡◌, ◌≤◌,
}
use astroid_club.JsMap.{JsMap, get, set, IsUnique}
use astroid_club.JsMap.Laws.{get-set}
use astroid_club.JsMap.Sums.{total, total-set}
use native.Mathlib.Nat.{div-add-mod}

abbrev pub amount_of : ℕ → ℕ
amount_of n = n

-- The exact floor. The code rounds stake / total stake, and its product with the pool, to doubles first,
-- so that its floor can be one off.
pub share : ℕ → ℕ → ℕ → ℕ
share pool total_stake stake = stake * pool / total_stake

abbrev give : ℕ → ℕ → JsMap ℕ ℕ × ℕ → JsMap ℕ ℕ × ℕ
give w n (payouts, paid) = if ltb 0 n then (set w n payouts, paid + n) else (payouts, paid)

pub pay_loop : ℕ → ℕ → JsMap ℕ ℕ → JsMap ℕ ℕ × ℕ → JsMap ℕ ℕ × ℕ
unfolding share
pay_loop pool total_stake [] acc = acc
pay_loop pool total_stake ((w, stake) ∷ rest) acc =
    pay_loop pool total_stake rest (give w (share pool total_stake stake) acc)

-- The payouts and their sum.
unfoldable pub pay_defenders : ℕ → JsMap ℕ ℕ → JsMap ℕ ℕ × ℕ
unfolding pay_loop
pay_defenders pool stakes =
    let total_stake = total amount_of stakes in
    if ltb 0 pool && ltb 0 total_stake then pay_loop pool total_stake stakes ([], 0) else ([], 0)

shares : ℕ → ℕ → JsMap ℕ ℕ → ℕ
shares pool t [] = 0
shares pool t ((w, stake) ∷ rest) = share pool t stake + shares pool t rest

pay_loop-paid :
    (pool t : ℕ) (stakes m : JsMap ℕ ℕ) (n : ℕ)
    → (pay_loop pool t stakes (m, n)).1 ≡ n + shares pool t stakes
unfolding pay_loop shares
pay_loop-paid pool t [] m n = omega arith
pay_loop-paid pool t ((w, s) ∷ rest) m n = ground (
  arith,
  pay_loop-paid pool t rest (set w (share pool t s) m) (n + share pool t s),
  pay_loop-paid pool t rest m n,
)

share_bound : (pool t s : ℕ) → 0 < t → t * share pool t s ≤ s * pool
unfolding share
share_bound pool t s h = grind (arith, div-add-mod (s * pool) t)

shares_bound :
    (pool t : ℕ) (stakes : JsMap ℕ ℕ)
    → 0 < t
    → t * shares pool t stakes ≤ total amount_of stakes * pool
unfolding shares
shares_bound pool t [] h = omega arith
shares_bound pool t ((w, s) ∷ rest) h =
    omega (arith, share_bound pool t s h, shares_bound pool t rest h)

le_of_mul : (t a b : ℕ) → 0 < t → t * a ≤ t * b → a ≤ b
le_of_mul t a b h p = grind arith

-- The defenders never get more than their pool.
pub pay_defenders_bound : (pool : ℕ) (stakes : JsMap ℕ ℕ) → (pay_defenders pool stakes).1 ≤ pool
unfolding pay_defenders
pay_defenders_bound pool stakes =
    let t = total amount_of stakes in
    elim (Bool-cases (ltb 0 t)) [
      | inl some_stake ↦ ground (
        arith,
        pay_loop-paid pool t stakes [] 0,
        le_of_mul t (shares pool t stakes) pool,
        shares_bound pool t stakes,
      )
      | inr no_stake ↦ ground arith
    ]

-- None of the wallets still to pay is paid yet.
abbrev Unpaid : JsMap ℕ ℕ → JsMap ℕ ℕ → Type 0
Unpaid stakes m = (w s : ℕ) → get w stakes ≡ some s → get w m ≡ none

Unpaid-tail :
    (v s : ℕ) (rest m : JsMap ℕ ℕ)
    → IsUnique ((v, s) ∷ rest)
    → Unpaid ((v, s) ∷ rest) m
    → Unpaid rest m
Unpaid-tail v s rest m u new w a e = new w a (ground (arith, nat_beq_iff w v))

Unpaid-set :
    (v s x : ℕ) (rest m : JsMap ℕ ℕ)
    → IsUnique ((v, s) ∷ rest)
    → Unpaid ((v, s) ∷ rest) m
    → Unpaid rest (set v x m)
Unpaid-set v s x rest m u new w a e =
    ground (arith, Unpaid-tail v s rest m u new w a e, get-set w v x m)

-- The sum that is booked is the sum of the payouts.
pay_loop-total :
    (pool t : ℕ) (stakes m : JsMap ℕ ℕ) (n : ℕ)
    → IsUnique stakes
    → Unpaid stakes m
    → total amount_of m ≡ n
    → let r = pay_loop pool t stakes (m, n) in total amount_of r.0 ≡ r.1
unfolding pay_loop
pay_loop-total pool t [] m n u new h = h
pay_loop-total pool t ((v, s) ∷ rest) m n u new h =
    let x = share pool t s in
    let missing : get v m ≡ none = new v s (ground arith) in
    elim (Bool-cases (ltb 0 x)) [
      | inl e ↦
          (let paid =
              pay_loop-total pool t rest (set v x m) (n + x) u.1 (Unpaid-set v s x rest m u new)
                (ground (arith, total-set amount_of v x m)) in
            ground (arith, e, paid))
      | inr e ↦
          (let paid = pay_loop-total pool t rest m n u.1 (Unpaid-tail v s rest m u new) h in
            ground (arith, e, paid))
    ]

-- Whatever the stakes, the sum that is booked is the sum of what the defenders are to be paid.
pub pay_defenders-total :
    (pool : ℕ) (stakes : JsMap ℕ ℕ)
    → IsUnique stakes
    → let r = pay_defenders pool stakes in total amount_of r.0 ≡ r.1
unfolding pay_defenders
pay_defenders-total pool stakes u =
    ground (arith, pay_loop-total pool (total amount_of stakes) stakes [] 0 u (λ w s e. refl) refl)
