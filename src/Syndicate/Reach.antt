-- ===== src/Syndicate/Reach.antt =====
-- The syndicates over any history: a step relation of the operations that go through, and the
-- invariant by induction on it.
use astroid_club.Prelude.Result.{Result, ok}
use astroid_club.Prelude.{
  List, Option-cases, [], arith, false, get_or, if◌then◌else◌, inl, inr, nat_eq, none, refl, some,
  subst, sym, ℕ, ◌==◌, ◌≡◌,
}
use astroid_club.Text.{Text, text_eq, to_upper_case}
use astroid_club.JsMap.{JsSet, get, has, set, delete, add, size}
use astroid_club.Syndicate.{
  Manager, Change as SettingsChange, enroll, new_syndicate, create_syndicate, disband_syndicate,
  invite_player, accept_invite, decline_invite, leave_syndicate, kick_member, promote_member,
  demote_member, transfer_leadership, update_settings, deposit_to_treasury, withdraw_from_treasury,
  Error,
}
use astroid_club.Syndicate.Names.{validate_tag}
use astroid_club.Syndicate.Burn.{Stake}
use astroid_club.Syndicate.Invariant.{SyndicateSound, Consistent}
use astroid_club.Syndicate.Changes.{
  settle, found_at, led_by_at, promote_member-Consistent, demote_member-Consistent,
  transfer_leadership-Consistent, update_settings-Consistent, deposit_to_treasury-Consistent,
  withdraw_from_treasury-Consistent,
}
use astroid_club.Syndicate.Membership.{invites-Consistent}
use astroid_club.Syndicate.Joining.{join-Consistent}
use astroid_club.Syndicate.Leaving.{remove_member-Consistent}
use astroid_club.Syndicate.Disbanding.{dissolve-Consistent}
use astroid_club.Syndicate.Founding.{enroll-Consistent}
use astroid_club.Syndicate.Authority.{
  accept_invite_ok, disband_syndicate_ok, leave_syndicate_ok, kick_member_ok, kicked_not_leader,
  invite_player_ok,
}

-- The id that a creation draws is not in use; every other argument is free.
pub data Step (m : Manager) : Manager → Type 0 where
  creates :
      (now id founder : ℕ) (name tag : Text) (total_stake : ℕ) (stakes plan : List Stake)
      {m' : Manager}
      → get id m.syndicates ≡ none
      → create_syndicate now id founder name tag total_stake stakes m ≡ ok (m', plan)
      → Step m m'
  disbands : (w : ℕ) {m' : Manager} → disband_syndicate w m ≡ ok m' → Step m m'
  invites_player : (w target : ℕ) {m' : Manager} → invite_player w target m ≡ ok m' → Step m m'
  accepts : (now w id : ℕ) {m' : Manager} → accept_invite now w id m ≡ ok m' → Step m m'
  declines : (w id : ℕ) → Step m (decline_invite w id m)
  leaves : (w : ℕ) {m' : Manager} → leave_syndicate w m ≡ ok m' → Step m m'
  kicks : (w target : ℕ) {m' : Manager} → kick_member w target m ≡ ok m' → Step m m'
  promotes : (w target : ℕ) {m' : Manager} → promote_member w target m ≡ ok m' → Step m m'
  demotes : (w target : ℕ) {m' : Manager} → demote_member w target m ≡ ok m' → Step m m'
  transfers : (old new : ℕ) {m' : Manager} → transfer_leadership old new m ≡ ok m' → Step m m'
  configures :
      (w : ℕ) (c : SettingsChange) {m' : Manager} → update_settings w c m ≡ ok m' → Step m m'
  deposits : (w n : ℕ) {m' : Manager} → deposit_to_treasury w n m ≡ ok m' → Step m m'
  withdraws : (w n : ℕ) {m' : Manager} → withdraw_from_treasury w n m ≡ ok m' → Step m m'

pub data Reach (m : Manager) : Manager → Type 0 where
  here : Reach m m
  next : {k l : Manager} → Reach m k → Step k l → Reach m l

unfoldable pub empty_manager : Manager
empty_manager = record {
  syndicates = [];
  member_to = [];
  invites = [];
  tags = [];
  total_created = 0;
  total_burned = 0;
}

pub empty_manager-Consistent : Consistent empty_manager
unfolding empty_manager
empty_manager-Consistent = record {
  sound = λ i s e. cc;
  reserved = λ i s e. cc;
  tags_differ = λ i j s t e f same. cc;
  enrolled = λ w i e. absurd (cc);
  listed = λ i w s e h. cc;
}

create_syndicate_ok :
    (now id founder : ℕ) (name tag : Text) (total_stake : ℕ) (stakes plan : List Stake)
    (m m' : Manager)
    → create_syndicate now id founder name tag total_stake stakes m ≡ ok (m', plan)
    → (get founder m.member_to ≡ none)
      × (validate_tag m.tags tag ≡ none)
      × (m' ≡ enroll (new_syndicate now id founder name tag) m)
unfolding create_syndicate
create_syndicate_ok now id founder name tag total_stake stakes plan m m' h = ground arith

validate_tag_free :
    (taken : JsSet Text) (tag : Text)
    → validate_tag taken tag ≡ none
    → has (to_upper_case tag) taken ≡ false
unfolding validate_tag
validate_tag_free taken tag h = ground arith

new_syndicate-Sound :
    (now id founder : ℕ) (name tag : Text)
    → SyndicateSound id (new_syndicate now id founder name tag)
unfolding new_syndicate
new_syndicate-Sound now id founder name tag = record {
  same_id = refl;
  led = ground arith;
  roles = λ w x e. ground (arith, e);
  bounded = omega arith;
  split = omega arith;
}

creates-Consistent :
    (now id founder : ℕ) (name tag : Text) (m : Manager)
    → Consistent m
    → get id m.syndicates ≡ none
    → get founder m.member_to ≡ none
    → validate_tag m.tags tag ≡ none
    → Consistent (enroll (new_syndicate now id founder name tag) m)
unfolding new_syndicate
creates-Consistent now id founder name tag m c unused free valid =
    enroll-Consistent (new_syndicate now id founder name tag) m c unused free
      (validate_tag_free m.tags tag valid) (new_syndicate-Sound now id founder name tag)
      (λ v. ground arith)

invite_player-Consistent :
    (w target : ℕ) (m m' : Manager)
    → Consistent m
    → invite_player w target m ≡ ok m'
    → Consistent m'
invite_player-Consistent w target m m' c h =
    let (s, _, _, _, _, eq) = invite_player_ok w target m m' h in
    rw eq
      (invites-Consistent m (set target (add s.id (get_or (get target m.invites) [])) m.invites) c)

decline-Consistent : (w id : ℕ) (m : Manager) → Consistent m → Consistent (decline_invite w id m)
unfolding decline_invite
decline-Consistent w id m c = elim (Option-cases (get w m.invites)) [
  | inl e ↦ rw (e, decline_invite) c
  | inr (ids, e) ↦
      rw (e, decline_invite)
        (invites-Consistent m
          (if size (delete id ids) == 0
            then delete w m.invites
            else set w (delete id ids) m.invites)
          c)
]

disband-Consistent :
    (w : ℕ) (m m' : Manager) → Consistent m → disband_syndicate w m ≡ ok m' → Consistent m'
disband-Consistent w m m' c h =
    let (s, led, eq) = disband_syndicate_ok w m m' h in
    rw eq (dissolve-Consistent s m c (found_at w m s c (led_by_at w m s led).0).0)

leave-Consistent :
    (w : ℕ) (m m' : Manager) → Consistent m → leave_syndicate w m ≡ ok m' → Consistent m'
leave-Consistent w m m' c h =
    let (s, mine, how) = leave_syndicate_ok w m m' h in
    let at = found_at w m s c mine in
    elim how [
      | inl alone ↦ disband-Consistent w m m' c alone.2
      | inr (follows, eq) ↦ rw eq (remove_member-Consistent w s m c at.0 at.1 follows)
    ]

kick-Consistent :
    (w target : ℕ) (m m' : Manager) → Consistent m → kick_member w target m ≡ ok m' → Consistent m'
kick-Consistent w target m m' c h =
    let (s, mine, guard, there, eq) = kick_member_ok w target m m' h in
    let found = (found_at w m s c mine).0 in
    rw eq (
      remove_member-Consistent target s m c found (c.listed s.id target s found there)
        (kicked_not_leader w target m s c mine guard there))

-- What an operation keeps, it keeps where it goes through.
settled_ok :
    (m m' : Manager) (r : Result Error Manager)
    → Consistent (settle m r)
    → r ≡ ok m'
    → Consistent m'
settled_ok m m' r c e = rw e at c

Step-Consistent : {m m' : Manager} → Step m m' → Consistent m → Consistent m'
Step-Consistent {m} (creates now id founder name tag t stakes plan {m' = m'} unused h) c =
    let (free, valid, eq) = create_syndicate_ok now id founder name tag t stakes plan m m' h in
    rw eq (creates-Consistent now id founder name tag m c unused free valid)
Step-Consistent {m} (disbands w {m' = m'} h) c = disband-Consistent w m m' c h
Step-Consistent {m} (invites_player w target {m' = m'} h) c =
    invite_player-Consistent w target m m' c h
Step-Consistent {m} (accepts now w id {m' = m'} h) c =
    let (s, found, free, room, eq) = accept_invite_ok now w id m m' h in
    let same = (c.sound id s found).same_id in
    rw eq (
      join-Consistent now w s m c (subst (λ k. get k m.syndicates ≡ some s) (sym same) found) free
        room)
Step-Consistent {m} (declines w id) c = decline-Consistent w id m c
Step-Consistent {m} (leaves w {m' = m'} h) c = leave-Consistent w m m' c h
Step-Consistent {m} (kicks w target {m' = m'} h) c = kick-Consistent w target m m' c h
Step-Consistent {m} (promotes w target {m' = m'} h) c =
    settled_ok m m' _ (promote_member-Consistent w target m c) h
Step-Consistent {m} (demotes w target {m' = m'} h) c =
    settled_ok m m' _ (demote_member-Consistent w target m c) h
Step-Consistent {m} (transfers old new {m' = m'} h) c =
    settled_ok m m' _ (transfer_leadership-Consistent old new m c) h
Step-Consistent {m} (configures w ch {m' = m'} h) c =
    settled_ok m m' _ (update_settings-Consistent w ch m c) h
Step-Consistent {m} (deposits w n {m' = m'} h) c =
    settled_ok m m' _ (deposit_to_treasury-Consistent w n m c) h
Step-Consistent {m} (withdraws w n {m' = m'} h) c =
    settled_ok m m' _ (withdraw_from_treasury-Consistent w n m c) h

-- Whatever the operations and their order, the index and the members agree, no wallet is in two
-- syndicates, each syndicate has one leader, who is its `leaderId`, and at most fifty members, and no
-- two have the same tag.
pub Reach-Consistent : {m m' : Manager} → Consistent m → Reach m m' → Consistent m'
Reach-Consistent c here = c
Reach-Consistent c (next r st) = Step-Consistent st (Reach-Consistent c r)
