-- ===== src/RaidVault/Tests.antt =====
-- Runs of the raid vault, and its theorems at concrete calls.
use astroid_club.Prelude.{List, [], nat_eq, refl, some, true, ◌+◌, ◌∷◌, ◌≡◌}
use astroid_club.RaidVault.{
  Call, adds, debits, new_vault, get_balance, add_to, debit, get_total, restore, step, run,
  contents,
}
use astroid_club.RaidVault.Laws.{get_total-run, restore-run, added, taken}

abbrev calls : List Call
calls = adds 1 70 ∷ adds 2 40 ∷ debits 1 100 ∷ adds 1 5 ∷ debits 2 15 ∷ adds 2 0 ∷ []

balances_after :
    (get_balance 1 (run calls (new_vault true)) ≡ 5)
    × (get_balance 2 (run calls (new_vault true)) ≡ 25)
unfolding run step add_to debit get_balance new_vault
balances_after = (refl, refl)

debit_clamps : (debit 2 100 (run calls (new_vault true))).1 ≡ 25
unfolding run step add_to debit get_balance new_vault
debit_clamps = refl

get_total-run_example :
    get_total (run calls (new_vault true)) + taken calls (new_vault true)
    ≡ get_total (new_vault true) + added calls
get_total-run_example = get_total-run calls (new_vault true)

restore-run_example :
    get_balance 2 (restore (some (contents (run calls (new_vault true)).writes)) (new_vault true)).0
    ≡ get_balance 2 (run calls (new_vault true))
restore-run_example = restore-run calls 2
