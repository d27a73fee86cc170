-- ===== src/BetEscrow/Cleanup.antt =====
-- What `cleanupResolvedPools` drops and what it keeps.
use astroid_club.Prelude.{
  Bool-cases, List, Option-cases, [], ap, arith, false, if◌then◌else◌, inl, inr, nat_eq, none, refl,
  some, sym, true, ℕ, ◌+◌, ◌<◌, ◌↔◌, ◌∙◌, ◌∷◌, ◌≡◌,
}
use astroid_club.JsMap.{JsMap, get, delete, IsUnique, values}
use astroid_club.JsMap.Laws.{get-delete, delete-IsUnique}
use astroid_club.BetEscrow.{
  resolved, Pool, Ledger, drop_bet, drop_bets, is_old, clean_pool, clean_loop,
  cleanup_resolved_pools,
}
use astroid_club.BetEscrow.Invariant.{Sound, PoolSound}

-- Dropping bets leaves the pools and the objects alone.
record Keeps (l l' : Ledger) : Type 0 where
  pools : l'.pools ≡ l.pools
  objects : l'.objects ≡ l.objects
  next : l'.next ≡ l.next

drop_bets-Keeps : (rs : List ℕ) (l : Ledger) → Keeps l (drop_bets rs l)
unfolding drop_bets drop_bet
drop_bets-Keeps [] l = record { pools = refl; objects = refl; next = refl }
drop_bets-Keeps (r ∷ rs) l =
    let k = drop_bets-Keeps rs (drop_bet (l.objects r) l) in
    record { pools = k.pools; objects = k.objects; next = k.next }

get-clean_loop :
    (now age j : ℕ) (m : JsMap ℕ Pool) (l : Ledger) (n : ℕ)
    → IsUnique m
    → get j (clean_loop now age m (l, n)).0.pools ≡ elim (get j m) [
      | none ↦ get j l.pools
      | some p ↦ if is_old now age p then none else get j l.pools
    ]
unfolding clean_loop clean_pool
get-clean_loop now age j [] l n u = refl
get-clean_loop now age j ((raid, p) ∷ rest) l n u =
    let l' = drop_bets (values p.attacker_bets) l in
    let k = (drop_bets-Keeps (values p.attacker_bets) l).pools in
    ground (
      arith,
      k,
      get-delete j raid l.pools,
      get-clean_loop now age j rest l n u.1,
      get-clean_loop now age j rest (record l' { pools = delete raid l'.pools }) (n + 1) u.1,
    )

-- A raid that was resolved more than `age` before `now`.
abbrev pub ResolvedBefore : (now age : ℕ) → Pool → Type 0
ResolvedBefore now age p =
    (p.status ≡ resolved) × (t : ℕ) × (p.resolved_at ≡ some t) × (t + age < now)

is_old_iff : (now age : ℕ) (p : Pool) → (is_old now age p ≡ true) ↔ ResolvedBefore now age p
unfolding is_old
is_old_iff now age p = elim (Option-cases p.resolved_at) [
  | inl e ↦ (λ h. absurd (ground (arith, h, e)), λ r. absurd (ground (arith, e, r.2)))
  | inr (t, e) ↦ (
    λ h. (ground (arith, h, e), t, e, ground (arith, h, e)),
    λ r. let same : r.1 ≡ t = ground (arith, e, r.2) in ground (arith, e, r.0, same, r.3),
  )
]

not_old : (now age : ℕ) (p : Pool) → ¬ ResolvedBefore now age p → is_old now age p ≡ false
not_old now age p h = elim (Bool-cases (is_old now age p)) [
  | inl e ↦ absurd (h ((is_old_iff now age p).0 e))
  | inr e ↦ e
]

kept_if :
    (now age j : ℕ) (p : Pool) (l : Ledger)
    → elim (get j l.pools) [
      | none ↦ get j l.pools
      | some q ↦ if is_old now age q then none else get j l.pools
    ]
      ≡ some p
    → (get j l.pools ≡ some p) × (is_old now age p ≡ false)
kept_if now age j p l h = elim (Option-cases (get j l.pools)) [
  | inl e ↦ absurd (ground (arith, e, h))
  | inr (q, e) ↦
      let fresh : is_old now age q ≡ false = ground (arith, e, h) in
      let same : q ≡ p = ground (arith, e, h) in
      (e ∙ ap some same, ap (is_old now age) (sym same) ∙ fresh)
]

-- Where no raid is listed twice, a pool is there after a cleanup exactly where it was there before and
-- is not of a raid that was resolved longer ago than the window.
pub cleanup_exact :
    (now age j : ℕ) (p : Pool) (l : Ledger)
    → IsUnique l.pools
    → (get j (cleanup_resolved_pools now age l).0.pools ≡ some p)
      ↔ ((get j l.pools ≡ some p) × ¬ ResolvedBefore now age p)
unfolding cleanup_resolved_pools
cleanup_exact now age j p l u =
    let left = get-clean_loop now age j l.pools l 0 u in
    let old = is_old_iff now age p in
    (
      λ h.
          let kept = kept_if now age j p l (sym left ∙ h) in
          (kept.0, λ r. absurd (ground (arith, kept.1, old.1 r))),
      λ h. left ∙ ground (arith, h.0, not_old now age p h.1),
    )

clean_loop-same :
    (now age : ℕ) (m : JsMap ℕ Pool) (l : Ledger) (n : ℕ)
    → let l' = (clean_loop now age m (l, n)).0 in (l'.objects ≡ l.objects) × (l'.next ≡ l.next)
unfolding clean_loop clean_pool
clean_loop-same now age [] l n = (refl, refl)
clean_loop-same now age ((raid, p) ∷ rest) l n =
    let l' = drop_bets (values p.attacker_bets) l in
    let k = drop_bets-Keeps (values p.attacker_bets) l in
    let gone = clean_loop-same now age rest (record l' { pools = delete raid l'.pools }) (n + 1) in
    ground (arith, k.objects, k.next, clean_loop-same now age rest l n, gone)

clean_loop-IsUnique :
    (now age : ℕ) (m : JsMap ℕ Pool) (l : Ledger) (n : ℕ)
    → IsUnique l.pools
    → IsUnique (clean_loop now age m (l, n)).0.pools
unfolding clean_loop clean_pool
clean_loop-IsUnique now age [] l n u = u
clean_loop-IsUnique now age ((raid, p) ∷ rest) l n u =
    let l' = drop_bets (values p.attacker_bets) l in
    let k = (drop_bets-Keeps (values p.attacker_bets) l).pools in
    let u' : IsUnique (delete raid l'.pools) = rw k (delete-IsUnique raid l.pools u) in
    elim (Bool-cases (is_old now age p)) [
      | inl e ↦
          rw (e, clean_loop, clean_pool)
            (clean_loop-IsUnique now age rest (record l' { pools = delete raid l'.pools }) (n + 1)
              u')
      | inr e ↦ rw (e, clean_loop, clean_pool) (clean_loop-IsUnique now age rest l n u)
    ]

PoolSound-same :
    (l l' : Ledger) (raid : ℕ) (p : Pool)
    → l'.objects ≡ l.objects
    → l'.next ≡ l.next
    → PoolSound l raid p
    → PoolSound l' raid p
PoolSound-same l l' raid p o n s = record {
  unique = s.unique;
  bets = λ w r e.
      let i = s.bets w r e in
      record {
        old = omega (arith, i.old, n);
        of_raid = rw o i.of_raid;
        of_wallet = rw o i.of_wallet;
        open_bet = λ a. rw o (i.open_bet a);
      };
  sum = rw o s.sum;
}

-- A cleanup keeps the ledger sound.
pub cleanup-Sound :
    (now age : ℕ) (l : Ledger) → Sound l → Sound (cleanup_resolved_pools now age l).0
unfolding cleanup_resolved_pools
cleanup-Sound now age l s =
    let same = clean_loop-same now age l.pools l 0 in
    record {
      unique = clean_loop-IsUnique now age l.pools l 0 s.unique;
      pools = λ raid q e.
          PoolSound-same l (clean_loop now age l.pools (l, 0)).0 raid q same.0 same.1
            (s.pools raid q (ground (arith, e, get-clean_loop now age raid l.pools l 0 s.unique)));
    }
