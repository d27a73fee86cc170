-- ===== src/Syndicate/Founding.antt =====
-- `createSyndicate`: a new syndicate with its founder as leader.
use astroid_club.Prelude.{
  Bool-cases, ap, arith, false, inl, inr, nat_beq_iff, nat_eq, none, some, subst, sym, true, ℕ,
  ◌==◌, ◌∙◌, ◌≡◌, ◌≢◌, ◌⊎◌,
}
use astroid_club.Text.{text_eq, text_beq_iff}
use astroid_club.JsMap.{get, has, set, add}
use astroid_club.JsMap.Laws.{get-set}
use astroid_club.Syndicate.{Syndicate, Manager, enroll}
use astroid_club.Syndicate.Invariant.{SyndicateSound, Consistent}

module _ (s : Syndicate) (m : Manager) (c : Consistent m) (unused : get s.id m.syndicates ≡ none)
    (free : get s.leader_id m.member_to ≡ none) (untaken : has s.tag m.tags ≡ false)
    (good : SyndicateSound s.id s) (alone : (v : ℕ) → has v s.members ≡ (v == s.leader_id)) where
  founded :
      (j : ℕ) (t : Syndicate)
      → get j (set s.id s m.syndicates) ≡ some t
      → ((j ≡ s.id) × (t ≡ s)) ⊎ ((j ≢ s.id) × (get j m.syndicates ≡ some t))
  founded j t e = elim (Bool-cases (j == s.id)) [
    | inl hit ↦ inl (ground (arith, hit), ground (arith, e, hit, get-set j s.id s m.syndicates))
    | inr miss ↦ inr (ground (arith, miss), ground (arith, e, miss, get-set j s.id s m.syndicates))
  ]

  -- No syndicate from before has the new tag.
  new_tag : (j : ℕ) (t : Syndicate) → get j m.syndicates ≡ some t → t.tag ≢ s.tag
  new_tag j t e same = let old = c.reserved j t e in cc (ap (λ x. has x m.tags) same, old, untaken)

  still_reserved :
      (j : ℕ) (t : Syndicate)
      → get j (set s.id s m.syndicates) ≡ some t
      → has t.tag (add s.tag m.tags) ≡ true
  still_reserved j t e = elim (founded j t e) [
    | inl (k, same) ↦
        (let tag : t.tag ≡ s.tag = ap (λ (x : Syndicate). x.tag) same in
          ground (arith, tag, text_beq_iff t.tag s.tag, get-set t.tag s.tag tt m.tags))
    | inr (k, old) ↦
        (let was = c.reserved j t old in ground (arith, was, get-set t.tag s.tag tt m.tags))
  ]

  still_differ :
      (i j : ℕ) (t u : Syndicate)
      → get i (set s.id s m.syndicates) ≡ some t
      → get j (set s.id s m.syndicates) ≡ some u
      → t.tag ≡ u.tag
      → i ≡ j
  still_differ i j t u e f same = elim (founded i t e) [
    | inl (k, is) ↦ elim (founded j u f) [
      | inl (l, iu) ↦ k ∙ sym l
      | inr (l, old) ↦ absurd (new_tag j u old (sym same ∙ ap (λ (x : Syndicate). x.tag) is))
    ]
    | inr (k, old) ↦ elim (founded j u f) [
      | inl (l, iu) ↦ absurd (new_tag i t old (same ∙ ap (λ (x : Syndicate). x.tag) iu))
      | inr (l, older) ↦ c.tags_differ i j t u old older same
    ]
  ]

  founder_enrolled :
      (w i : ℕ)
      → get w (set s.leader_id s.id m.member_to) ≡ some i
      → (t : Syndicate) × (get i (set s.id s m.syndicates) ≡ some t) × (has w t.members ≡ true)
  founder_enrolled w i e = elim (Bool-cases (w == s.leader_id)) [
    | inl hit ↦ (
      s,
      ground (arith, e, hit, get-set w s.leader_id s.id m.member_to, get-set i s.id s m.syndicates),
      alone w ∙ hit,
    )
    | inr miss ↦
        (let old =
            c.enrolled w i (ground (arith, e, miss, get-set w s.leader_id s.id m.member_to)) in
          (
            old.0,
            ground (arith, old.1, unused, get-set i s.id s m.syndicates, nat_beq_iff i s.id),
            old.2,
          ))
  ]

  founder_listed :
      (i w : ℕ) (t : Syndicate)
      → get i (set s.id s m.syndicates) ≡ some t
      → has w t.members ≡ true
      → get w (set s.leader_id s.id m.member_to) ≡ some i
  founder_listed i w t e h = elim (founded i t e) [
    | inl (k, same) ↦
        (let is : (w == s.leader_id) ≡ true =
            sym (alone w) ∙ sym (ap (λ (x : Syndicate). has w x.members) same) ∙ h in
          ground (arith, is, k, get-set w s.leader_id s.id m.member_to))
    | inr (k, old) ↦
        (let was = c.listed i w t old h in
          ground
            (arith, was, free, nat_beq_iff w s.leader_id, get-set w s.leader_id s.id m.member_to))
  ]

  pub enroll-Consistent : Consistent (enroll s m)
  unfolding enroll
  enroll-Consistent = record {
    sound = λ j t e. elim (founded j t e) [
      | inl (k, same) ↦
          subst (λ k'. SyndicateSound k' t) (sym k) (subst (SyndicateSound s.id) (sym same) good)
      | inr (k, old) ↦ c.sound j t old
    ];
    reserved = still_reserved;
    tags_differ = still_differ;
    enrolled = founder_enrolled;
    listed = founder_listed;
  }
