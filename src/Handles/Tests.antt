-- ===== src/Handles/Tests.antt =====
-- Runs of the handle service.
use astroid_club.Prelude.{List, [], arith, nat_eq, refl, some, true, ◌∷◌, ◌≡◌, ◌≢◌}
use astroid_club.Prelude.Result.{ok, err}
use astroid_club.Text.{Text, text_eq, to_lower_case}
use astroid_club.Handles.{
  request, Service, get_handle, normalize_handle, new_service, resolve, is_reserved, bad_character,
}
use astroid_club.Handles.Owners.{Call, run_calls, run_call, boot, names_differ}
use astroid_club.Handles.Races.{requested, race_duplicates}

abbrev rover : Text
rover = b'R' ∷ b'o' ∷ b'v' ∷ b'e' ∷ b'r' ∷ []

abbrev shout : Text
shout = b'R' ∷ b'O' ∷ b'V' ∷ b'E' ∷ b'R' ∷ []

trims_a_name : normalize_handle (some (32 ∷ rover)) ≡ ok rover
unfolding normalize_handle
trims_a_name = refl

keeps_operator_names :
    normalize_handle (some (b'A' ∷ b'd' ∷ b'm' ∷ b'i' ∷ b'n' ∷ [])) ≡ err is_reserved
unfolding normalize_handle
keeps_operator_names = refl

refuses_a_space : normalize_handle (some (b'a' ∷ 32 ∷ b'b' ∷ [])) ≡ err bad_character
unfolding normalize_handle
refuses_a_space = refl

abbrev comet : Text
comet = b'c' ∷ b'o' ∷ b'm' ∷ b'e' ∷ b't' ∷ []

-- The second claim is refused, since the name is taken.
abbrev calls : List Call
calls =
    record { wallet = 1; raw = some rover; written = true }
    ∷ record { wallet = 2; raw = some shout; written = true }
    ∷ record { wallet = 1; raw = some shout; written = true }
    ∷ record { wallet = 2; raw = some comet; written = true }
    ∷ []

abbrev ended : Service
ended = run_calls calls (boot true (some []))

each_has_one : (get_handle 1 ended ≡ some shout) × (get_handle 2 ended ≡ some comet)
unfolding run_calls boot run_call request resolve
each_has_one = (refl, refl)

names_differ_example : to_lower_case shout ≢ to_lower_case comet
names_differ_example =
    names_differ true (some []) calls 1 2 shout comet (ground arith) each_has_one.0 each_has_one.1

race_duplicates_example :
    let both = requested 2 (some rover) (requested 1 (some rover) (new_service true)) in
    let s' = (resolve 0 true (resolve 0 true both).0).0 in
    (get_handle 1 s' ≡ some rover) × (get_handle 2 s' ≡ some rover)
unfolding new_service normalize_handle
race_duplicates_example =
    race_duplicates (new_service true) 1 2 (some rover) rover (ground arith) refl refl refl refl
