-- ===== src/Syndicate/Disbanding.antt =====
-- `disbandSyndicate`: the members, the tag and the syndicate go together.
use astroid_club.Prelude.{
  Bool-cases, [], ap, arith, false, if◌then◌else◌, inl, inr, nat_eq, none, refl, some, sym, true, ℕ,
  ◌∙◌, ◌∷◌, ◌≡◌, ◌≢◌,
}
use astroid_club.Text.{text_eq, text_beq_iff}
use astroid_club.JsMap.{JsMap, get, has, delete}
use astroid_club.JsMap.Laws.{get-delete}
use astroid_club.Syndicate.{Member, Syndicate, Manager, forget_all, dissolve}
use astroid_club.Syndicate.Invariant.{Consistent}

get-forget_all :
    (v : ℕ) (ms : JsMap ℕ Member) (mt : JsMap ℕ ℕ)
    → get v (forget_all ms mt) ≡ (if has v ms then none else get v mt)
unfolding forget_all
get-forget_all v [] mt = refl
get-forget_all v ((w, x) ∷ rest) mt =
    ground (arith, get-forget_all v rest (delete w mt), get-delete v w mt)

-- A wallet that the index places in another syndicate is not in this one.
elsewhere :
    (w i : ℕ) (s : Syndicate) (m : Manager)
    → Consistent m
    → get s.id m.syndicates ≡ some s
    → i ≢ s.id
    → get w m.member_to ≡ some i
    → has w s.members ≡ false
elsewhere w i s m c found ne known = elim (Bool-cases (has w s.members)) [
  | inl e ↦ (let clash = c.listed s.id w s found e in absurd (ne (ground (arith, known, clash))))
  | inr e ↦ e
]

module _ (s : Syndicate) (m : Manager) (c : Consistent m)
    (found : get s.id m.syndicates ≡ some s) where
  -- What is left was there before, under another id and tag.
  kept :
      (j : ℕ) (t : Syndicate)
      → get j (delete s.id m.syndicates) ≡ some t
      → (j ≢ s.id) × (get j m.syndicates ≡ some t)
  kept j t e = (
    ground (arith, e, get-delete j s.id m.syndicates),
    ground (arith, e, get-delete j s.id m.syndicates),
  )

  other_tag : (j : ℕ) (t : Syndicate) → get j (delete s.id m.syndicates) ≡ some t → t.tag ≢ s.tag
  other_tag j t e same = let k = kept j t e in k.0 (c.tags_differ j s.id t s k.1 found same)

  pub dissolve-Consistent : Consistent (dissolve s m)
  unfolding dissolve
  dissolve-Consistent = record {
    sound = λ j t e. c.sound j t (kept j t e).1;
    reserved = λ j t e. ground (
      arith,
      other_tag j t e,
      text_beq_iff t.tag s.tag,
      c.reserved j t (kept j t e).1,
      get-delete t.tag s.tag m.tags,
    );
    tags_differ = λ i j t u e f same. c.tags_differ i j t u (kept i t e).1 (kept j u f).1 same;
    enrolled = λ w i e.
        (let old = c.enrolled w i (ground (arith, e, get-forget_all w s.members m.member_to)) in
          let ne : i ≢ s.id = λ hit.
            (let same : old.0 ≡ s = ground (arith, old.1, found, hit) in
              let is : has w s.members ≡ true =
                ap (λ (t : Syndicate). has w t.members) (sym same) ∙ old.2 in
              ground (arith, e, is, get-forget_all w s.members m.member_to)) in
          (old.0, ground (arith, old.1, ne, get-delete i s.id m.syndicates), old.2));
    listed = λ i w t e h.
        (let k = kept i t e in
          let old = c.listed i w t k.1 h in
          let out : has w s.members ≡ false = elsewhere w i s m c found k.0 old in
          ground (arith, out, old, get-forget_all w s.members m.member_to));
  }
