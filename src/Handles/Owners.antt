-- ===== src/Handles/Owners.antt =====
-- The two maps of the handles agree: no two wallets have one name.
use astroid_club.Prelude.{
  Bool, Bool-cases, List, Option, Option-cases, [], ap, arith, false, if_cases, inl, inr, nat_eq,
  none, refl, some, true, ℕ, ◌++◌, ◌==◌, ◌∷◌, ◌≡◌, ◌≢◌,
}
use astroid_club.Prelude.Result.{Result, ok, err, ◌>>=◌}
use astroid_club.JsMap.{JsMap, get, set}
use astroid_club.JsMap.Laws.{get-set, get-delete}
use astroid_club.Text.{text_eq, Text, to_lower_case}
use astroid_club.Handles.{
  Claim, Error, Reply, Service, commit, done, drop_nth, freed, get_handle, is_foreign, is_same,
  load, load_loop, new_service, normalize_handle, nth, request, request_handle, resolve, waits,
}

-- The name of every handle belongs to the wallet that has it.
abbrev pub Agree : Service → Type 0
Agree s =
    (w : ℕ) (h : Text) → get w s.by_wallet ≡ some h → get (to_lower_case h) s.by_lower ≡ some w

load_loop-Agree : (rows : JsMap ℕ Text) (s : Service) → Agree s → Agree (load_loop rows s)
unfolding load_loop
load_loop-Agree [] s a = a
load_loop-Agree ((w, h) ∷ rest) s a = load_loop-Agree rest _ (λ v g e. ground (
  arith,
  e,
  a v g,
  get-set v w h s.by_wallet,
  get-set (to_lower_case g) (to_lower_case h) w s.by_lower,
  text_eq.beq_iff (to_lower_case g) (to_lower_case h),
))

load_loop-waiting : (rows : JsMap ℕ Text) (s : Service) → (load_loop rows s).waiting ≡ s.waiting
unfolding load_loop
load_loop-waiting [] s = refl
load_loop-waiting ((w, h) ∷ rest) s = ground (
  arith,
  load_loop-waiting rest s,
  load_loop-waiting rest
      (record s { by_wallet = set w h s.by_wallet; by_lower = set (to_lower_case h) w s.by_lower }),
)

freed_keeps :
    (v w : ℕ) (g : Text) (s : Service)
    → Agree s
    → (v == w) ≡ false
    → get v s.by_wallet ≡ some g
    → get (to_lower_case g) (freed w s) ≡ some v
unfolding freed
freed_keeps v w g s a d e = elim (Option-cases (get w s.by_wallet)) [
  | inl h ↦ ground (arith, h, a v g e)
  | inr (p, h) ↦ ground (
    arith,
    h,
    a v g e,
    a w p h,
    get-delete (to_lower_case g) (to_lower_case p) s.by_lower,
    text_eq.beq_iff (to_lower_case g) (to_lower_case p),
  )
]

commit-Agree :
    (w : ℕ) (h : Text) (s : Service) → Agree s → is_foreign w h s ≡ false → Agree (commit w h s)
unfolding commit
commit-Agree w h s a free v g e =
    let l = to_lower_case g in
    elim (Bool-cases (v == w)) [
      | inl same ↦ ground (
        arith,
        same,
        e,
        get-set v w h s.by_wallet,
        get-set l (to_lower_case h) w (freed w s),
        text_eq.beq_iff l (to_lower_case h),
      )
      | inr differ ↦
          let before : get v s.by_wallet ≡ some g =
            ground (arith, differ, e, get-set v w h s.by_wallet) in
          ground (
            arith,
            free,
            differ,
            a v g before,
            get-set l (to_lower_case h) w (freed w s),
            freed_keeps v w g s a differ before,
            text_eq.beq_iff l (to_lower_case h),
          )
    ]

-- One claim of a wallet, with what the store answers if it is asked, all before the next call.
pub record Call : Type 0 where
  pub wallet : ℕ
  pub raw : Option Text
  pub written : Bool

-- The rest of a claim after its request, where the store answers at once.
abbrev settle : Bool → Service → Result Error (Service × Reply) → Service
settle written s (err e) = s
settle written s (ok (s', done h)) = s'
settle written s (ok (s', waits)) = (resolve 0 written s').0

unfoldable pub run_call : Call → Service → Service
run_call c s = settle c.written s (request c.wallet c.raw s)

unfoldable pub run_calls : List Call → Service → Service
run_calls [] s = s
run_calls (c ∷ cs) s = run_calls cs (run_call c s)

-- Nothing waits between the calls.
abbrev IsGood : Service → Type 0
IsGood s = Agree s × (s.waiting ≡ [])

resolve-IsGood :
    (w : ℕ) (h : Text) (written : Bool) (s : Service) (q : List Claim)
    → Agree s
    → q ≡ []
    → is_foreign w h s ≡ false
    → let c : Claim = record { wallet = w; handle = h } in
      IsGood (resolve 0 written (record s { waiting = q ++ (c ∷ []) })).0
unfolding resolve nth drop_nth commit freed
resolve-IsGood w h true s [] a e free = (commit-Agree w h (record s { waiting = [] }) a free, refl)
resolve-IsGood w h false s [] a e free = (a, refl)
resolve-IsGood w h written s (x ∷ q) a e free = absurd (ground (arith, e))

settle-IsGood :
    (w : ℕ) (h : Text) (written : Bool) (s : Service)
    → IsGood s
    → IsGood (settle written s (request_handle w h s))
unfolding request_handle resolve
settle-IsGood w h written s g =
    if_cases (λ r. IsGood (settle written s r)) (is_foreign w h s) _ _ (λ f. g)
      (λ free.
        if_cases (λ r. IsGood (settle written s r)) (is_same w h s) _ _ (λ f. g)
          (λ f.
            if_cases (λ r. IsGood (settle written s r)) s.has_store _ _
              (λ f. resolve-IsGood w h written s s.waiting g.0 g.1 free)
              (λ f. (commit-Agree w h s g.0 free, g.1))))

run_call-IsGood : (c : Call) (s : Service) → IsGood s → IsGood (run_call c s)
unfolding run_call request
run_call-IsGood c s g =
    elim (normalize_handle c.raw)
      as (λ r. IsGood (settle c.written s (r >>= λ h. request_handle c.wallet h s))) [
        | err e ↦ g
        | ok h ↦ settle-IsGood c.wallet h c.written s g
      ]

run_calls-IsGood : (cs : List Call) (s : Service) → IsGood s → IsGood (run_calls cs s)
unfolding run_calls
run_calls-IsGood [] s g = g
run_calls-IsGood (c ∷ cs) s g = run_calls-IsGood cs (run_call c s) (run_call-IsGood c s g)

-- The start: the handles that the store returns, or none where the read failed.
unfoldable pub boot : Bool → Option (JsMap ℕ Text) → Service
unfolding load new_service
boot store rows = load rows (new_service store)

boot-IsGood : (store : Bool) (rows : Option (JsMap ℕ Text)) → IsGood (boot store rows)
unfolding boot load new_service
boot-IsGood false rows = (λ w h e. ground (arith, e), refl)
boot-IsGood true none = (λ w h e. ground (arith, e), refl)
boot-IsGood true (some rows) = (
  load_loop-Agree rows (new_service true) (λ w h e. ground (arith, e)),
  load_loop-waiting rows (new_service true),
)

-- After a start on any rows of the store and any claims, each answered before the next one comes, the
-- handles of two different wallets differ by more than their case.
pub names_differ :
    (store : Bool) (rows : Option (JsMap ℕ Text)) (cs : List Call) (v w : ℕ) (g h : Text)
    → v ≢ w
    → let s = run_calls cs (boot store rows) in
      get_handle v s ≡ some g → get_handle w s ≡ some h → to_lower_case g ≢ to_lower_case h
names_differ store rows cs v w g h ne eg eh e =
    let s = run_calls cs (boot store rows) in
    let a : Agree s = (run_calls-IsGood cs _ (boot-IsGood store rows)).0 in
    ground (arith, ne, a v g eg, a w h eh, ap (λ l. get l s.by_lower) e)
