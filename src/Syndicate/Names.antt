-- ===== src/Syndicate/Names.antt =====
-- `validateName` and `validateTag` of server/game/syndicate-manager.ts.
use astroid_club.Prelude.{
  Bool, Option, if◌then◌else◌, length, ltb, nat_eq, none, not, some, ℕ, ◌==◌, ◌||◌,
}
use astroid_club.Text.{Text, text_eq, trim, is_letter, is_digit, matches_all, to_upper_case}
use astroid_club.JsMap.{JsSet, has}

abbrev pub max_name_length : ℕ
max_name_length = 24

abbrev pub min_tag_length : ℕ
min_tag_length = 2

abbrev pub max_tag_length : ℕ
max_tag_length = 4

pub data NameError : Type 0 where
  name_required name_long name_chars tag_required tag_size tag_chars tag_taken : NameError

pub name_char : ℕ → Bool
unfolding is_letter is_digit
name_char c = is_letter c || is_digit c || c == b' ' || c == b'_' || c == b'-'

pub tag_char : ℕ → Bool
unfolding is_letter is_digit
tag_char c = is_letter c || is_digit c

-- The error, where the name is not valid.
unfoldable pub validate_name : Text → Option NameError
unfolding name_char trim matches_all
validate_name name =
    if length (trim name) == 0
    then some name_required
    else if ltb max_name_length (length name)
    then some name_long
    else if not (matches_all name_char name)
    then some name_chars
    else none

unfoldable pub validate_tag : JsSet Text → Text → Option NameError
unfolding tag_char trim matches_all to_upper_case
validate_tag taken tag =
    if length (trim tag) == 0
    then some tag_required
    else if ltb (length tag) min_tag_length || ltb max_tag_length (length tag)
    then some tag_size
    else if not (matches_all tag_char tag)
    then some tag_chars
    else if has (to_upper_case tag) taken
    then some tag_taken
    else none
