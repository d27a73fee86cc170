-- ===== src/RaidVault/Laws.antt =====
-- What a raid vault keeps: the total moves by what a call reports, and a restart from the store loses
-- nothing.
use astroid_club.Prelude.{
  List, [], ap, arith, get_or, if◌then◌else◌, ltb, min, nat_eq, none, refl, some, sym, true, ℕ, ◌+◌,
  ◌-◌, ◌==◌, ◌∙◌, ◌∷◌, ◌≡◌,
}
use astroid_club.JsMap.{JsMap, get, set, IsUnique}
use astroid_club.JsMap.Laws.{get-set, set-IsUnique}
use astroid_club.JsMap.Sums.{total-set}
use astroid_club.RaidVault.{
  RaidVault, Call, adds, debits, new_vault, get_balance, persist, add_to, debit, get_total,
  restore_loop, restore, step, run, contents,
}

-- What a call adds to its asteroid and what it takes, as the call reports them.
abbrev pub gained : Call → ℕ
gained (adds a n) = n
gained (debits a n) = 0

abbrev pub lost : Call → RaidVault → ℕ
lost (adds a n) s = 0
lost (debits a n) s = (debit a n s).1

abbrev pub asteroid : Call → ℕ
asteroid (adds a n) = a
asteroid (debits a n) = a

pub added : List Call → ℕ
added [] = 0
added (c ∷ cs) = gained c + added cs

pub taken : List Call → RaidVault → ℕ
taken [] s = 0
taken (c ∷ cs) s = lost c s + taken cs (step c s).0

get_total-step :
    (c : Call) (s : RaidVault) → get_total (step c s).0 + lost c s ≡ get_total s + gained c
unfolding get_total step add_to debit
get_total-step (adds a n) s =
    ground (arith, total-set (λ b. b) a (get_or (get a s.balances) 0 + n) s.balances)
get_total-step (debits a n) s = ground (
  arith,
  total-set (λ b. b) a (get_or (get a s.balances) 0 - min n (get_or (get a s.balances) 0))
      s.balances,
)

-- Over any history, what is in the vaults and what raids have taken out of them is what was in
-- them before and what has been added.
pub get_total-run :
    (cs : List Call) (s : RaidVault) → get_total (run cs s) + taken cs s ≡ get_total s + added cs
unfolding run taken added
get_total-run [] s = omega arith
get_total-run (c ∷ cs) s = omega (arith, get_total-step c s, get_total-run cs (step c s).0)

-- The store, once it has taken the writes, agrees with the balances in memory.
abbrev IsMirrored : RaidVault → Type 0
IsMirrored s =
    (s.stored ≡ true)
    × ((j : ℕ) → get j (contents s.writes) ≡ get j s.balances)
    × IsUnique (contents s.writes)

mirror_set :
    (a b : ℕ) (s : RaidVault)
    → IsMirrored s
    → IsMirrored (persist a b (record s { balances = set a b s.balances }))
unfolding persist contents
mirror_set a b s m = rw m.0 (
  refl,
  λ j.
      get-set j a b (contents s.writes)
      ∙ ap (λ o. if j == a then some b else o) (m.1 j)
      ∙ sym (get-set j a b s.balances),
  set-IsUnique a b (contents s.writes) m.2,
)

step-IsMirrored : (c : Call) (s : RaidVault) → IsMirrored s → IsMirrored (step c s).0
unfolding step add_to debit
step-IsMirrored (adds a n) s m = ground (arith, mirror_set a (get_or (get a s.balances) 0 + n) s m)
step-IsMirrored (debits a n) s m =
    ground
      (arith, mirror_set a (get_or (get a s.balances) 0 - min n (get_or (get a s.balances) 0)) s m)

run-IsMirrored : (cs : List Call) (s : RaidVault) → IsMirrored s → IsMirrored (run cs s)
unfolding run
run-IsMirrored [] s m = m
run-IsMirrored (c ∷ cs) s m = run-IsMirrored cs (step c s).0 (step-IsMirrored c s m)

-- The loop puts the positive rows over what was there.
get-restore_loop :
    (j : ℕ) (rows m : JsMap ℕ ℕ) (n : ℕ)
    → IsUnique rows
    → get j (restore_loop rows (m, n)).0
      ≡ elim (get j rows) [ none ↦ get j m | some b ↦ if ltb 0 b then some b else get j m ]
unfolding restore_loop
get-restore_loop j [] m n u = refl
get-restore_loop j ((a, b) ∷ rest) m n u = ground (
  arith,
  get-set j a b m,
  get-restore_loop j rest (set a b m) (n + 1) u.1,
  get-restore_loop j rest m n u.1,
)

-- A manager that starts on an empty store, makes any calls, and is restarted on what the store has
-- then, shows the balance that it had for every asteroid.
pub restore-run :
    (cs : List Call) (j : ℕ)
    → let s = run cs (new_vault true) in
      get_balance j (restore (some (contents s.writes)) (new_vault true)).0 ≡ get_balance j s
unfolding restore get_balance new_vault contents
restore-run cs j =
    let s = run cs (new_vault true) in
    let m : IsMirrored s = run-IsMirrored cs (new_vault true) (refl, λ _. refl, tt) in
    ground (arith, m.1 j, get-restore_loop j (contents s.writes) [] 0 m.2)
