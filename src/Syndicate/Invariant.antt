-- ===== src/Syndicate/Invariant.antt =====
-- What holds of the syndicates after any history: the index of members and the members agree, every
-- syndicate has one leader and at most fifty members, and tags are unique.
use astroid_club.Prelude.{
  Bool-cases, ap, arith, inl, inr, nat_eq, refl, some, subst, sym, true, ℕ, ◌==◌, ◌↔◌, ◌∙◌, ◌≡◌,
  ◌≢◌, ◌≤◌, ◌⊎◌,
}
use astroid_club.Text.{text_eq}
use astroid_club.JsMap.{get, has, size, JsMap, set}
use astroid_club.JsMap.Laws.{get-set}
use astroid_club.Syndicate.{
  Member, Syndicate, Manager, put, max_members, max_treasury_split, is_leader,
}

-- A member's record, under its wallet.
abbrev pub IsMemberOf : Syndicate → ℕ → Member → Type 0
IsMemberOf s w x = (x.wallet ≡ w) × (is_leader x.role ≡ (w == s.leader_id))

pub record SyndicateSound (id : ℕ) (s : Syndicate) : Type 0 where
  pub same_id : s.id ≡ id
  pub led : has s.leader_id s.members ≡ true
  pub roles : (w : ℕ) (x : Member) → get w s.members ≡ some x → IsMemberOf s w x
  pub bounded : size s.members ≤ max_members
  pub split : s.settings.reward_split ≤ max_treasury_split

pub record Consistent (m : Manager) : Type 0 where
  pub sound : (id : ℕ) (s : Syndicate) → get id m.syndicates ≡ some s → SyndicateSound id s
  pub reserved : (id : ℕ) (s : Syndicate) → get id m.syndicates ≡ some s → has s.tag m.tags ≡ true
  pub tags_differ :
      (i j : ℕ) (s t : Syndicate)
      → get i m.syndicates ≡ some s
      → get j m.syndicates ≡ some t
      → s.tag ≡ t.tag
      → i ≡ j
  pub enrolled :
      (w id : ℕ)
      → get w m.member_to ≡ some id
      → (s : Syndicate) × (get id m.syndicates ≡ some s) × (has w s.members ≡ true)
  pub listed :
      (id w : ℕ) (s : Syndicate)
      → get id m.syndicates ≡ some s
      → has w s.members ≡ true
      → get w m.member_to ≡ some id

-- A change of one syndicate in place that keeps its id, its tag and who its members are.
pub record Change (s s' : Syndicate) : Type 0 where
  pub id : s'.id ≡ s.id
  pub tag : s'.tag ≡ s.tag
  pub members : (w : ℕ) → has w s'.members ≡ has w s.members

module _ (m : Manager) (id : ℕ) (s s' : Syndicate) (c : Consistent m)
    (found : get id m.syndicates ≡ some s) (ch : Change s s') (good : SyndicateSound id s') where
  -- What is at a key after the change.
  at_key :
      (j : ℕ) (t : Syndicate)
      → get j (put s' m).syndicates ≡ some t
      → ((j ≡ id) × (t ≡ s')) ⊎ ((j ≢ id) × (get j m.syndicates ≡ some t))
  at_key j t e = elim (Bool-cases (j == s'.id)) [
    | inl hit ↦
        inl (
          ground (arith, good.same_id, hit),
          ground (arith, e, hit, get-set j s'.id s' m.syndicates),
        )
    | inr miss ↦ inr (
      ground (arith, good.same_id, miss),
      ground (arith, e, miss, get-set j s'.id s' m.syndicates),
    )
  ]

  -- Each syndicate after the change was one before, with the same tag and members.
  before :
      (j : ℕ) (t : Syndicate)
      → get j (put s' m).syndicates ≡ some t
      → (o : Syndicate) × (get j m.syndicates ≡ some o)
        × (t.tag ≡ o.tag)
        × ((w : ℕ) → has w t.members ≡ has w o.members)
        × SyndicateSound j t
  before j t e = elim (at_key j t e) [
    | inl (k, same) ↦
        (s, rw k found, rw same ch.tag, λ w. rw same (ch.members w), rw (k, same) good)
    | inr (k, same) ↦ (t, same, refl, λ w. refl, c.sound j t same)
  ]

  after_put :
      (j : ℕ) (o : Syndicate)
      → get j m.syndicates ≡ some o
      → (t : Syndicate) × (get j (put s' m).syndicates ≡ some t)
        × ((w : ℕ) → has w t.members ≡ has w o.members)
  after_put j o e = elim (Bool-cases (j == s'.id)) [
    | inl hit ↦
        (let here : o ≡ s = ground (arith, good.same_id, hit, e, found) in
          (s', ground (arith, hit, get-set j s'.id s' m.syndicates), λ w. rw here (ch.members w)))
    | inr miss ↦ (o, ground (arith, miss, e, get-set j s'.id s' m.syndicates), λ w. refl)
  ]

  pub put-Consistent : Consistent (put s' m)
  put-Consistent = record {
    sound = λ j t e. (before j t e).4;
    reserved = λ j t e. let b = before j t e in rw b.2 (c.reserved j b.0 b.1);
    tags_differ = λ i j t u e f same.
        let b = before i t e in
        let d = before j u f in c.tags_differ i j b.0 d.0 b.1 d.1 (sym b.2 ∙ same ∙ d.2);
    enrolled =
        λ w i e. let o = c.enrolled w i e in let t = after_put i o.0 o.1 in (t.0, t.1, t.2 w ∙ o.2);
    listed = λ i w t e h. let b = before i t e in c.listed i w b.0 b.1 (sym (b.3 w) ∙ h);
  }

-- A change of one syndicate's members together with the index: the index must list the members under
-- the syndicate, and nobody else may move.
module _ (m : Manager) (s s' : Syndicate) (mt : JsMap ℕ ℕ) (c : Consistent m)
    (found : get s.id m.syndicates ≡ some s) (tag : s'.tag ≡ s.tag) (good : SyndicateSound s.id s')
    (here : (v : ℕ) → (has v s'.members ≡ true) ↔ (get v mt ≡ some s.id))
    (there : (v i : ℕ) → i ≢ s.id → (get v mt ≡ some i) ↔ (get v m.member_to ≡ some i)) where
  at_place :
      (j : ℕ) (t : Syndicate)
      → get j (set s.id s' m.syndicates) ≡ some t
      → ((j ≡ s.id) × (t ≡ s')) ⊎ ((j ≢ s.id) × (get j m.syndicates ≡ some t))
  at_place j t e = elim (Bool-cases (j == s.id)) [
    | inl hit ↦ inl (ground (arith, hit), ground (arith, e, hit, get-set j s.id s' m.syndicates))
    | inr miss ↦ inr (ground (arith, miss), ground (arith, e, miss, get-set j s.id s' m.syndicates))
  ]

  -- Each syndicate after the change was one before, with the same tag.
  was :
      (j : ℕ) (t : Syndicate)
      → get j (set s.id s' m.syndicates) ≡ some t
      → (o : Syndicate) × (get j m.syndicates ≡ some o) × (t.tag ≡ o.tag)
  was j t e = elim (at_place j t e) [
    | inl (k, same) ↦ (
      s,
      subst (λ k'. get k' m.syndicates ≡ some s) (sym k) found,
      ap (λ (x : Syndicate). x.tag) same ∙ tag,
    )
    | inr (k, same) ↦ (t, same, refl)
  ]

  still_sound :
      (j : ℕ) (t : Syndicate) → get j (set s.id s' m.syndicates) ≡ some t → SyndicateSound j t
  still_sound j t e = elim (at_place j t e) [
    | inl (k, same) ↦
        subst (λ k'. SyndicateSound k' t) (sym k) (subst (SyndicateSound s.id) (sym same) good)
    | inr (k, same) ↦ c.sound j t same
  ]

  now_enrolled :
      (w i : ℕ)
      → get w mt ≡ some i
      → (t : Syndicate) × (get i (set s.id s' m.syndicates) ≡ some t) × (has w t.members ≡ true)
  now_enrolled w i e = elim (Bool-cases (i == s.id)) [
    | inl hit ↦
        (let same : i ≡ s.id = ground (arith, hit) in
          (s', ground (arith, hit, get-set i s.id s' m.syndicates), (here w).1 (e ∙ ap some same)))
    | inr miss ↦
        (let o = c.enrolled w i ((there w i (ground (arith, miss))).0 e) in
          (o.0, ground (arith, miss, o.1, get-set i s.id s' m.syndicates), o.2))
  ]

  now_listed :
      (i w : ℕ) (t : Syndicate)
      → get i (set s.id s' m.syndicates) ≡ some t
      → has w t.members ≡ true
      → get w mt ≡ some i
  now_listed i w t e h = elim (at_place i t e) [
    | inl (k, same) ↦
        (here w).0 (sym (ap (λ (x : Syndicate). has w x.members) same) ∙ h) ∙ sym (ap some k)
    | inr (k, same) ↦ (there w i k).1 (c.listed i w t same h)
  ]

  pub rewire-Consistent :
      Consistent (record m { syndicates = set s.id s' m.syndicates; member_to = mt })
  rewire-Consistent = record {
    sound = still_sound;
    reserved = λ j t e. let b = was j t e in ap (λ x. has x m.tags) b.2 ∙ c.reserved j b.0 b.1;
    tags_differ = λ i j t u e f same.
        let b = was i t e in
        let d = was j u f in c.tags_differ i j b.0 d.0 b.1 d.1 (sym b.2 ∙ same ∙ d.2);
    enrolled = now_enrolled;
    listed = now_listed;
  }
