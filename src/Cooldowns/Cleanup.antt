-- ===== src/Cooldowns/Cleanup.antt =====
-- What `cleanupExpired` drops and what it keeps.
use astroid_club.Prelude.{
  Bool-cases, List, [], arith, get_or, if◌then◌else◌, inl, inr, length, nat_eq, none, refl, some, ℕ,
  ◌+◌, ◌-◌, ◌==◌, ◌∷◌, ◌≡◌,
}
use astroid_club.JsMap.{JsMap, get, IsUnique}
use astroid_club.JsMap.Laws.{get-set, get-delete, set-IsUnique, delete-IsUnique}
use astroid_club.Cooldowns.{
  Cooldown, Manager, is_live, filter, clean_wallet, clean_loop, cleanup_expired,
}

-- The cooldowns that a wallet has, none where it is not listed.
abbrev pub listed : ℕ → JsMap ℕ (List Cooldown) → List Cooldown
listed w m = get_or (get w m) []

abbrev pub cooldowns_of : ℕ → Manager → List Cooldown
cooldowns_of w m = listed w m.cooldowns

length-zero : (cs : List Cooldown) → length cs ≡ 0 → cs ≡ []
length-zero [] e = refl
length-zero (c ∷ cs) e = ground (arith, e)

listed-clean_wallet :
    (now v w : ℕ) (cs : List Cooldown) (m : JsMap ℕ (List Cooldown))
    → listed v (clean_wallet now w cs m) ≡ (if v == w then filter (is_live now) cs else listed v m)
unfolding clean_wallet
listed-clean_wallet now v w cs m =
    let live = filter (is_live now) cs in
    ground (arith, length-zero live, get-set v w live m, get-delete v w m)

clean_wallet-IsUnique :
    (now w : ℕ) (cs : List Cooldown) (m : JsMap ℕ (List Cooldown))
    → IsUnique m
    → IsUnique (clean_wallet now w cs m)
unfolding clean_wallet
clean_wallet-IsUnique now w cs m u =
    let live = filter (is_live now) cs in
    elim (Bool-cases (length live == 0)) [
      | inl e ↦ rw (e, clean_wallet) (delete-IsUnique w m u)
      | inr e ↦ rw (e, clean_wallet) (set-IsUnique w live m u)
    ]

clean_loop-IsUnique :
    (now : ℕ) (l m : JsMap ℕ (List Cooldown)) (n : ℕ)
    → IsUnique m
    → IsUnique (clean_loop now l (m, n)).0
unfolding clean_loop
clean_loop-IsUnique now [] m n u = u
clean_loop-IsUnique now ((w, cs) ∷ rest) m n u =
    clean_loop-IsUnique now rest (clean_wallet now w cs m) _ (clean_wallet-IsUnique now w cs m u)

pub cleanup-IsUnique :
    (now : ℕ) (m : Manager) → IsUnique m.cooldowns → IsUnique (cleanup_expired now m).0.cooldowns
unfolding cleanup_expired
cleanup-IsUnique now m u = clean_loop-IsUnique now m.cooldowns m.cooldowns 0 u

listed-clean_loop :
    (now v : ℕ) (l m : JsMap ℕ (List Cooldown)) (n : ℕ)
    → IsUnique l
    → listed v (clean_loop now l (m, n)).0
      ≡ elim (get v l) [ none ↦ listed v m | some cs ↦ filter (is_live now) cs ]
unfolding clean_loop
listed-clean_loop now v [] m n u = refl
listed-clean_loop now v ((w, cs) ∷ rest) m n u = ground (
  arith,
  u.0,
  listed-clean_wallet now v w cs m,
  listed-clean_loop now v rest (clean_wallet now w cs m)
      (n + (length cs - length (filter (is_live now) cs))) u.1,
)

-- Where no wallet is listed twice, a cleanup leaves each wallet its live cooldowns.
pub cooldowns_of-cleanup :
    (now w : ℕ) (m : Manager)
    → IsUnique m.cooldowns
    → cooldowns_of w (cleanup_expired now m).0 ≡ filter (is_live now) (cooldowns_of w m)
unfolding cleanup_expired filter
cooldowns_of-cleanup now w m u = ground (arith, listed-clean_loop now w m.cooldowns m.cooldowns 0 u)
