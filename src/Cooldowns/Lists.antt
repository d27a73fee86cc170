-- ===== src/Cooldowns/Lists.antt =====
-- A wallet's list of cooldowns, seen as the expiry of each type, where it has at most one of each.
use astroid_club.Prelude.{
  Bool, List, [], arith, if◌then◌else◌, leb, ltb, nat_eq, none, refl, some, sum_by, sum_by-append,
  ℕ, ◌&&◌, ◌++◌, ◌-◌, ◌==◌, ◌∷◌, ◌≡◌, ◌≤◌,
}
use astroid_club.Cooldowns.{
  CooldownType, Cooldown, type_eq, type_beq_iff, is_live, is_of, any, find, filter, remove_first,
}

-- How many cooldowns of a type a list has.
abbrev pub count : CooldownType → List Cooldown → ℕ
count t = sum_by (λ c. if is_of t c then 1 else 0)

-- The expiry of the first cooldown of a type, 0 where there is none.
pub due : CooldownType → List Cooldown → ℕ
due t [] = 0
due t (c ∷ cs) = if is_of t c then c.expires_at else due t cs

pub due-absent : (t : CooldownType) (cs : List Cooldown) → count t cs ≡ 0 → due t cs ≡ 0
unfolding due
due-absent t [] e = refl
due-absent t (c ∷ cs) e = ground (arith, e, due-absent t cs)

pub any-due :
    (now : ℕ) (t : CooldownType) (cs : List Cooldown)
    → count t cs ≤ 1
    → any (λ c. is_of t c && is_live now c) cs ≡ ltb now (due t cs)
unfolding any due
any-due now t [] h = ground arith
any-due now t (c ∷ cs) h = ground (arith, h, any-due now t cs, due-absent t cs)

pub find-due :
    (now : ℕ) (t : CooldownType) (cs : List Cooldown)
    → count t cs ≤ 1
    → elim (find (λ c. is_of t c && is_live now c) cs) [ none ↦ 0 | some c ↦ c.expires_at - now ]
      ≡ due t cs - now
unfolding find due
find-due now t [] h = ground arith
find-due now t (c ∷ cs) h = ground (arith, h, find-due now t cs, due-absent t cs)

pub count-remove_first :
    (t u : CooldownType) (cs : List Cooldown)
    → count t (remove_first (is_of u) cs) ≡ (if t == u then count t cs - 1 else count t cs)
unfolding remove_first
count-remove_first t u [] = ground arith
count-remove_first t u (c ∷ cs) = ground (
  arith,
  type_beq_iff c.kind t,
  type_beq_iff c.kind u,
  type_beq_iff t u,
  count-remove_first t u cs,
)

pub due-remove_first :
    (t u : CooldownType) (cs : List Cooldown)
    → count t cs ≤ 1
    → due t (remove_first (is_of u) cs) ≡ (if t == u then 0 else due t cs)
unfolding remove_first due
due-remove_first t u [] h = ground arith
due-remove_first t u (c ∷ cs) h = ground (
  arith,
  h,
  type_beq_iff c.kind t,
  type_beq_iff c.kind u,
  type_beq_iff t u,
  due-remove_first t u cs,
  due-absent t cs,
)

pub due-push :
    (t : CooldownType) (cs : List Cooldown) (c : Cooldown)
    → due t (cs ++ (c ∷ [])) ≡ (if leb 1 (count t cs) then due t cs else due t (c ∷ []))
unfolding due
due-push t [] c = ground arith
due-push t (x ∷ cs) c = ground (arith, due-push t cs c)

pub count-filter :
    (t : CooldownType) (f : Cooldown → Bool) (cs : List Cooldown)
    → count t (filter f cs) ≤ count t cs
unfolding filter
count-filter t f [] = omega arith
count-filter t f (c ∷ cs) = ground (arith, count-filter t f cs)

pub due-filter :
    (at : ℕ) (t : CooldownType) (cs : List Cooldown)
    → count t cs ≤ 1
    → due t (filter (is_live at) cs) ≡ (if ltb at (due t cs) then due t cs else 0)
unfolding filter due
due-filter at t [] h = ground arith
due-filter at t (c ∷ cs) h = ground (arith, h, due-filter at t cs, due-absent t cs)

-- A cooldown put in the place of the first one of its type.
abbrev pub renewed : Cooldown → List Cooldown → List Cooldown
renewed c cs = remove_first (is_of c.kind) cs ++ (c ∷ [])

pub count-renewed :
    (t : CooldownType) (c : Cooldown) (cs : List Cooldown)
    → count t cs ≤ 1
    → count t (renewed c cs) ≤ 1
count-renewed t c cs h =
    let kept = remove_first (is_of c.kind) cs in
    ground (
      arith,
      h,
      type_beq_iff c.kind t,
      type_beq_iff t c.kind,
      count-remove_first t c.kind cs,
      sum_by-append (λ x. if is_of t x then 1 else 0) kept (c ∷ []),
    )

pub due-renewed :
    (t : CooldownType) (c : Cooldown) (cs : List Cooldown)
    → count t cs ≤ 1
    → due t (renewed c cs) ≡ (if c.kind == t then c.expires_at else due t cs)
unfolding due
due-renewed t c cs h =
    let kept = remove_first (is_of c.kind) cs in
    ground (
      arith,
      h,
      type_beq_iff c.kind t,
      type_beq_iff t c.kind,
      count-remove_first t c.kind cs,
      due-remove_first t c.kind cs h,
      due-push t kept c,
      due-absent t kept,
    )
