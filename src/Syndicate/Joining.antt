-- ===== src/Syndicate/Joining.antt =====
-- `acceptInvite`: a wallet joins a syndicate.
use astroid_club.Prelude.{
  Bool-cases, ap, arith, inl, inr, nat_beq_iff, nat_eq, none, refl, some, sym, true, ℕ, ◌<◌, ◌==◌,
  ◌↔◌, ◌∙◌, ◌≡◌, ◌≢◌,
}
use astroid_club.Text.{text_eq}
use astroid_club.JsMap.{get, has, set, delete, size}
use astroid_club.JsMap.Laws.{get-set}
use astroid_club.JsMap.Sums.{size-set}
use astroid_club.Syndicate.{member, Member, Syndicate, Manager, max_members, join}
use astroid_club.Syndicate.Invariant.{SyndicateSound, Consistent, rewire-Consistent}
use astroid_club.Syndicate.Membership.{has-set, missing_of_has, not_in_any, invites-Consistent}

abbrev with_new_member : ℕ → ℕ → Syndicate → Syndicate
with_new_member now w s = record s {
  members =
      set w (record { wallet = w; role = member; joined_at = now; contributed = 0 }) s.members;
}

module _ (now w : ℕ) (s : Syndicate) (m : Manager) (c : Consistent m)
    (found : get s.id m.syndicates ≡ some s) (free : get w m.member_to ≡ none)
    (room : size s.members < max_members) where
  s' : Syndicate
  s' = with_new_member now w s

  joined-Sound : SyndicateSound s.id s'
  unfolding s'
  joined-Sound =
      let u = c.sound s.id s found in
      let absent = missing_of_has w s.members (not_in_any m w s.id s c free found) in
      let x : Member = record { wallet = w; role = member; joined_at = now; contributed = 0 } in
      record {
        same_id = refl;
        led = ground (arith, has-set s.leader_id w x s.members, u.led);
        roles = λ v y e. elim (Bool-cases (v == w)) [
          | inl hit ↦ ground (arith, e, hit, absent, u.led, get-set v w x s.members)
          | inr miss ↦
              (let r = u.roles v y (ground (arith, e, miss, get-set v w x s.members)) in (r.0, r.1))
        ];
        bounded = omega (arith, size-set w x s.members absent, room);
        split = u.split;
      }

  joined_here : (v : ℕ) → (has v s'.members ≡ true) ↔ (get v (set w s.id m.member_to) ≡ some s.id)
  unfolding s'
  joined_here v =
      let x : Member = record { wallet = w; role = member; joined_at = now; contributed = 0 } in
      elim (Bool-cases (v == w)) [
        | inl hit ↦ (
          λ h. ground (arith, hit, get-set v w s.id m.member_to),
          λ h. ground (arith, hit, has-set v w x s.members),
        )
        | inr miss ↦ (
          λ h.
              (let old =
                  c.listed s.id v s found (ground (arith, h, miss, has-set v w x s.members)) in
                ground (arith, miss, old, get-set v w s.id m.member_to)),
          λ h.
              (let old =
                  c.enrolled v s.id (ground (arith, h, miss, get-set v w s.id m.member_to)) in
                let same : old.0 ≡ s = ground (arith, old.1, found) in
                let is : has v s.members ≡ true =
                  ap (λ (t : Syndicate). has v t.members) (sym same) ∙ old.2 in
                ground (arith, miss, is, has-set v w x s.members)),
        )
      ]

  joined_there :
      (v i : ℕ)
      → i ≢ s.id
      → (get v (set w s.id m.member_to) ≡ some i) ↔ (get v m.member_to ≡ some i)
  joined_there v i ne = (
    λ h. ground (arith, h, ne, get-set v w s.id m.member_to),
    λ h. ground (arith, h, ne, free, nat_beq_iff v w, get-set v w s.id m.member_to),
  )

  pub join-Consistent : Consistent (join now w s m)
  unfolding join s'
  join-Consistent =
      invites-Consistent
        (record m { syndicates = set s.id s' m.syndicates; member_to = set w s.id m.member_to })
        (delete w m.invites)
        (rewire-Consistent m s s' (set w s.id m.member_to) c found refl joined-Sound joined_here
          joined_there)
