-- ===== src/Syndicate/Leaving.antt =====
-- `leaveSyndicate` and `kickMember`: a member other than the leader goes.
use astroid_club.Prelude.{
  Bool-cases, ap, arith, inl, inr, nat_beq_iff, nat_eq, refl, some, sym, true, ℕ, ◌==◌, ◌↔◌, ◌∙◌,
  ◌≡◌, ◌≢◌,
}
use astroid_club.Text.{text_eq}
use astroid_club.JsMap.{get, has, delete}
use astroid_club.JsMap.Laws.{get-delete}
use astroid_club.JsMap.Sums.{size-delete}
use astroid_club.Syndicate.{Syndicate, Manager, remove_member}
use astroid_club.Syndicate.Invariant.{SyndicateSound, Consistent, rewire-Consistent}
use astroid_club.Syndicate.Membership.{has-delete}

module _ (w : ℕ) (s : Syndicate) (m : Manager) (c : Consistent m)
    (found : get s.id m.syndicates ≡ some s) (mine : get w m.member_to ≡ some s.id)
    (follower : w ≢ s.leader_id) where
  left : Syndicate
  left = record s { members = delete w s.members }

  left-Sound : SyndicateSound s.id left
  unfolding left
  left-Sound =
      let u = c.sound s.id s found in
      record {
        same_id = refl;
        led = ground (arith, has-delete s.leader_id w s.members, u.led, follower);
        roles = λ v y e.
            let r = u.roles v y (ground (arith, e, get-delete v w s.members)) in (r.0, r.1);
        bounded = omega (arith, size-delete w s.members, u.bounded);
        split = u.split;
      }

  left_here : (v : ℕ) → (has v left.members ≡ true) ↔ (get v (delete w m.member_to) ≡ some s.id)
  unfolding left
  left_here v = elim (Bool-cases (v == w)) [
    | inl hit ↦ (
      λ h. absurd (ground (arith, h, hit, has-delete v w s.members)),
      λ h. absurd (ground (arith, h, hit, get-delete v w m.member_to)),
    )
    | inr miss ↦ (
      λ h.
          (let old = c.listed s.id v s found (ground (arith, h, miss, has-delete v w s.members)) in
            ground (arith, miss, old, get-delete v w m.member_to)),
      λ h.
          (let old = c.enrolled v s.id (ground (arith, h, miss, get-delete v w m.member_to)) in
            let same : old.0 ≡ s = ground (arith, old.1, found) in
            let is : has v s.members ≡ true =
              ap (λ (t : Syndicate). has v t.members) (sym same) ∙ old.2 in
            ground (arith, miss, is, has-delete v w s.members)),
    )
  ]

  left_there :
      (v i : ℕ) → i ≢ s.id → (get v (delete w m.member_to) ≡ some i) ↔ (get v m.member_to ≡ some i)
  left_there v i ne = (
    λ h. ground (arith, h, ne, get-delete v w m.member_to),
    λ h. ground (arith, h, ne, mine, nat_beq_iff v w, get-delete v w m.member_to),
  )

  pub remove_member-Consistent : Consistent (remove_member w s m)
  unfolding remove_member left
  remove_member-Consistent =
      rewire-Consistent m s left (delete w m.member_to) c found refl left-Sound left_here left_there
