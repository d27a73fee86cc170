-- ===== src/Syndicate/Membership.antt =====
-- Who is in a syndicate: what the operations of server/game/syndicate-manager.ts that change its
-- members share.
use astroid_club.Prelude.{
  Bool-cases, arith, false, if◌then◌else◌, inl, inr, nat_eq, none, some, true, ℕ, ◌==◌, ◌≡◌,
}
use astroid_club.Text.{text_eq}
use astroid_club.JsMap.{JsMap, JsSet, get, has, set, delete}
use astroid_club.JsMap.Laws.{get-set, get-delete}
use astroid_club.Syndicate.{Member, Syndicate, Manager}
use astroid_club.Syndicate.Invariant.{Consistent}

-- Invites are no part of the invariant.
pub invites-Consistent :
    (m : Manager) (i : JsMap ℕ (JsSet ℕ)) → Consistent m → Consistent (record m { invites = i })
invites-Consistent m i c = record {
  sound = c.sound;
  reserved = c.reserved;
  tags_differ = c.tags_differ;
  enrolled = c.enrolled;
  listed = c.listed;
}

-- Who is in a syndicate after a wallet joined it.
pub has-set :
    (v w : ℕ) (x : Member) (ms : JsMap ℕ Member)
    → has v (set w x ms) ≡ (if v == w then true else has v ms)
has-set v w x ms = ground (arith, get-set v w x ms)

pub has-delete :
    (v w : ℕ) (ms : JsMap ℕ Member) → has v (delete w ms) ≡ (if v == w then false else has v ms)
has-delete v w ms = ground (arith, get-delete v w ms)

pub missing_of_has : (w : ℕ) (ms : JsMap ℕ Member) → has w ms ≡ false → get w ms ≡ none
missing_of_has w ms e = ground (arith, e)

-- A wallet that the index does not know is in no syndicate.
pub not_in_any :
    (m : Manager) (w id : ℕ) (s : Syndicate)
    → Consistent m
    → get w m.member_to ≡ none
    → get id m.syndicates ≡ some s
    → has w s.members ≡ false
not_in_any m w id s c free found = elim (Bool-cases (has w s.members)) [
  | inl e ↦ (let known = c.listed id w s found e in absurd (ground (arith, free, known)))
  | inr e ↦ e
]
