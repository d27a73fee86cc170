-- ===== src/Handles/Races.antt =====
-- Two claims of one name that both wait for the store.
use astroid_club.Prelude.{
  List, Option, [], ap, arith, nat_eq, none, some, subst, sym, true, ℕ, ◌++◌, ◌∙◌, ◌∷◌, ◌≡◌, ◌≢◌,
}
use astroid_club.Prelude.Result.{ok, err}
use astroid_club.JsMap.{get, set}
use astroid_club.JsMap.Laws.{get-set}
use astroid_club.Text.{Text, text_eq, to_lower_case}
use astroid_club.Handles.{
  Claim, Service, commit, freed, get_handle, normalize_handle, request, request_handle, resolve,
  nth, drop_nth,
}

-- The state after a request, where it was not refused.
unfoldable pub requested : ℕ → Option Text → Service → Service
unfolding request
requested w raw s = elim (request w raw s) [ err e ↦ s | ok (s', r) ↦ s' ]

requested_waits :
    (w : ℕ) (raw : Option Text) (h : Text) (s : Service)
    → normalize_handle raw ≡ ok h
    → s.has_store ≡ true
    → get (to_lower_case h) s.by_lower ≡ none
    → requested w raw s
      ≡ record s { waiting = s.waiting ++ (record { wallet = w; handle = h } ∷ []) }
unfolding requested request request_handle
requested_waits w raw h s n st free = ground (arith, n, st, free)

abbrev claim : ℕ → Text → Claim
claim w h = record { wallet = w; handle = h }

-- The state after both requests.
abbrev two_waiting : ℕ → ℕ → Text → Service → List Claim → Service
two_waiting v w h s q = record s { waiting = (q ++ (claim v h ∷ [])) ++ (claim w h ∷ []) }

both_written :
    (s : Service) (v w : ℕ) (h : Text) (q : List Claim)
    → v ≢ w
    → q ≡ []
    → let s' = (resolve 0 true (resolve 0 true (two_waiting v w h s q)).0).0 in
      (get_handle v s' ≡ some h) × (get_handle w s' ≡ some h)
unfolding resolve nth drop_nth commit freed
both_written s v w h [] ne e =
    let m = set v h s.by_wallet in
    (
      ground (arith, ne, get-set v w h m, get-set v v h s.by_wallet),
      ground (arith, get-set w w h m),
    )
both_written s v w h (x ∷ q) ne e = absurd (ground (arith, e))

-- Where a store is wired, no claim waits and a name is free, two wallets that ask for the same handle
-- before the store answers either of them both get it, where the store writes both.
pub race_duplicates :
    (s : Service) (v w : ℕ) (raw : Option Text) (h : Text)
    → v ≢ w
    → s.has_store ≡ true
    → s.waiting ≡ []
    → normalize_handle raw ≡ ok h
    → get (to_lower_case h) s.by_lower ≡ none
    → let both = requested w raw (requested v raw s) in
      let s' = (resolve 0 true (resolve 0 true both).0).0 in
      (get_handle v s' ≡ some h) × (get_handle w s' ≡ some h)
race_duplicates s v w raw h ne st q n free =
    let first = requested_waits v raw h s n st free in
    let second =
      requested_waits w raw h (record s { waiting = s.waiting ++ (claim v h ∷ []) }) n st free in
    let Both : Service → Type 0 = λ b.
      let s' = (resolve 0 true (resolve 0 true b).0).0 in
      (get_handle v s' ≡ some h) × (get_handle w s' ≡ some h) in
    subst Both (sym (ap (requested w raw) first ∙ second)) (both_written s v w h s.waiting ne q)
