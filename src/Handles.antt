-- ===== src/Handles.antt =====
-- server/verification/handles.ts: the chat handles. A wallet is an opaque key. A claim waits for the
-- store between its test and its write, so it is in two steps: `request` and `resolve`; the claims
-- that wait are part of the state.
pub mod Owners
pub mod Races
mod Tests
use astroid_club.Prelude.{
  All, Bool, Bool-cases, Eq, List, Option, Option-cases, [], ap, arith, false, get_or, holds,
  if_keeps, if◌then◌else◌, inl, inr, is_some, leb, length, length-append, ltb, map, max, min,
  nat_beq_iff, nat_eq, none, not, refl, some, subst, suc, sum_by, sum_by-append, sym, true, zero, ℕ,
  ◌%◌, ◌&&◌, ◌*◌, ◌++◌, ◌+◌, ◌-◌, ◌/◌, ◌<◌, ◌==◌, ◌||◌, ◌↔◌, ◌∙◌, ◌∷◌, ◌≡◌, ◌≢◌, ◌≤◌, ◌⊎◌,
}
use astroid_club.Prelude.Result.{Result, ok, err, ◌>>=◌, ◌>>◌, refuse_if, or_fail}
use astroid_club.JsMap.{JsMap, get, has, set, delete, size}
use astroid_club.Text.{Text, text_eq, trim, is_letter, is_digit, matches_all, to_lower_case}

abbrev pub min_length : ℕ
min_length = 3

abbrev pub max_length : ℕ
max_length = 20

pub data Error : Type 0 where
  not_text too_short too_long bad_character is_reserved is_taken store_failed : Error

-- `/[A-Za-z0-9_]/`
pub handle_char : ℕ → Bool
unfolding is_letter is_digit
handle_char c = is_letter c || (is_digit c || c == b'_')

abbrev pub reserved : List Text
reserved =
    (b'y' ∷ b'o' ∷ b'u' ∷ [])
    ∷ (b's' ∷ b'y' ∷ b's' ∷ b't' ∷ b'e' ∷ b'm' ∷ [])
    ∷ (b'a' ∷ b'd' ∷ b'm' ∷ b'i' ∷ b'n' ∷ [])
    ∷ (b's' ∷ b'e' ∷ b'r' ∷ b'v' ∷ b'e' ∷ b'r' ∷ [])
    ∷ (b'a' ∷ b's' ∷ b't' ∷ b'r' ∷ b'o' ∷ b'i' ∷ b'd' ∷ [])
    ∷ (b'm' ∷ b'o' ∷ b'd' ∷ [])
    ∷ (b'm' ∷ b'o' ∷ b'd' ∷ b'e' ∷ b'r' ∷ b'a' ∷ b't' ∷ b'o' ∷ b'r' ∷ [])
    ∷ []

pub member : Text → List Text → Bool
member t [] = false
member t (x ∷ xs) = t == x || member t xs

-- `none` is a value that is no text.
unfoldable pub normalize_handle : Option Text → Result Error Text
unfolding trim matches_all handle_char member to_lower_case
normalize_handle raw = do
  text ← or_fail raw not_text
  let handle = trim text
  refuse_if (ltb (length handle) min_length) too_short
  refuse_if (ltb max_length (length handle)) too_long
  refuse_if (not (matches_all handle_char handle)) bad_character
  refuse_if (member (to_lower_case handle) reserved) is_reserved
  ok handle

pub record Claim : Type 0 where
  pub wallet : ℕ
  pub handle : Text

pub record Service : Type 0 where
  pub by_wallet : JsMap ℕ Text
  pub by_lower : JsMap Text ℕ
  pub has_store : Bool
  -- The claims whose write to the store is on its way, oldest first.
  pub waiting : List Claim

unfoldable pub new_service : Bool → Service
new_service store = record { by_wallet = []; by_lower = []; has_store = store; waiting = [] }

-- The loop of `load`, over what the store returned.
pub load_loop : JsMap ℕ Text → Service → Service
load_loop [] s = s
load_loop ((w, h) ∷ rest) s =
    let l = to_lower_case h in
    load_loop rest (
      if has l s.by_lower
      then s
      else record s { by_wallet = set w h s.by_wallet; by_lower = set l w s.by_lower })

-- `none` where the read failed.
unfoldable pub load : Option (JsMap ℕ Text) → Service → Service
unfolding load_loop
load rows s = if s.has_store then elim rows [ none ↦ s | some all ↦ load_loop all s ] else s

abbrev pub get_handle : ℕ → Service → Option Text
get_handle w s = get w s.by_wallet

abbrev pub count : Service → ℕ
count s = size s.by_wallet

-- The names without the one that the wallet had.
unfoldable pub freed : ℕ → Service → JsMap Text ℕ
freed w s = elim (get w s.by_wallet) [
  | none ↦ s.by_lower
  | some previous ↦
      if length previous == 0 then s.by_lower else delete (to_lower_case previous) s.by_lower
]

-- What follows the await of the store.
unfoldable pub commit : ℕ → Text → Service → Service
unfolding freed
commit w h s = record s {
  by_wallet = set w h s.by_wallet;
  by_lower = set (to_lower_case h) w (freed w s);
}

-- Whether another wallet owns a name, and whether a wallet has exactly this handle.
abbrev pub is_foreign : ℕ → Text → Service → Bool
is_foreign w h s = holds (λ v. not (v == w)) (get (to_lower_case h) s.by_lower)

abbrev pub is_same : ℕ → Text → Service → Bool
is_same w h s =
    holds (λ v. v == w) (get (to_lower_case h) s.by_lower)
    && holds (λ g. g == h) (get w s.by_wallet)

-- What a request answers: the handle at once, or that it waits for the store.
pub data Reply : Type 0 where
  done : Text → Reply
  waits : Reply

-- The tests of `set`, up to the await.
pub request_handle : ℕ → Text → Service → Result Error (Service × Reply)
unfolding commit
request_handle w h s =
    if is_foreign w h s
    then err is_taken
    else if is_same w h s
    then ok (s, done h)
    else if s.has_store
    then ok (record s { waiting = s.waiting ++ (record { wallet = w; handle = h } ∷ []) }, waits)
    else ok (commit w h s, done h)

unfoldable pub request : ℕ → Option Text → Service → Result Error (Service × Reply)
unfolding normalize_handle request_handle
request w raw s = normalize_handle raw >>= λ h. request_handle w h s

-- A claim out of those that wait.
pub nth : ℕ → List Claim → Option Claim
nth k [] = none
nth zero (c ∷ cs) = some c
nth (suc k) (c ∷ cs) = nth k cs

pub drop_nth : ℕ → List Claim → List Claim
drop_nth k [] = []
drop_nth zero (c ∷ cs) = cs
drop_nth (suc k) (c ∷ cs) = c ∷ drop_nth k cs

-- The store answers the k-th waiting claim: it was written, or the write failed.
unfoldable pub resolve : ℕ → Bool → Service → Service × Result Error Text
unfolding nth drop_nth commit
resolve k written s = elim (nth k s.waiting) [
  | none ↦ (s, err store_failed)
  | some c ↦
      let s' = record s { waiting = drop_nth k s.waiting } in
      if written then (commit c.wallet c.handle s', ok c.handle) else (s', err store_failed)
]
