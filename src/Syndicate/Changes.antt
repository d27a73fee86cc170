-- ===== src/Syndicate/Changes.antt =====
-- The operations that change one syndicate in place: roles, settings and the treasury.
use astroid_club.Prelude.Result.{Result, ok, err}
use astroid_club.Prelude.{
  Bool-cases, Option-cases, arith, false, holds, inl, inr, nat_eq, refl, some, subst, sym, true, ℕ,
  ◌+◌, ◌-◌, ◌<◌, ◌==◌, ◌∙◌, ◌≡◌, ◌≤◌,
}
use astroid_club.JsMap.{JsMap, get, has, update}
use astroid_club.JsMap.Laws.{get-update}
use astroid_club.JsMap.Sums.{size-update}
use astroid_club.Syndicate.{
  officer_count, max_officers, leader, officer, member, Member, Syndicate, Manager, Settings, put,
  max_treasury_split, is_leader, with_role, get_member_syndicate, led_by, hand_over, promote_member,
  demote_member, transfer_leadership, deposit_to_treasury, withdraw_from_treasury, bad_reward_split,
  changed, update_settings, Change as SettingsChange, Error,
}
use astroid_club.Syndicate.Invariant.{IsMemberOf, Consistent, put-Consistent}

get_member_syndicate_at :
    (w : ℕ) (m : Manager) (s : Syndicate)
    → get_member_syndicate w m ≡ some s
    → (id : ℕ) × (get w m.member_to ≡ some id) × (get id m.syndicates ≡ some s)
unfolding get_member_syndicate
get_member_syndicate_at w m s h = elim (Option-cases (get w m.member_to)) [
  | inl e ↦ absurd (ground (arith, e))
  | inr (id, e) ↦ (id, e, ground (arith, e))
]

-- The syndicate of a wallet stands under its own id.
pub found_at :
    (w : ℕ) (m : Manager) (s : Syndicate)
    → Consistent m
    → get_member_syndicate w m ≡ some s
    → (get s.id m.syndicates ≡ some s) × (get w m.member_to ≡ some s.id)
found_at w m s c h =
    let (id, e, f) = get_member_syndicate_at w m s h in
    let same = (c.sound id s f).same_id in
    (
      subst (λ k. get k m.syndicates ≡ some s) (sym same) f,
      subst (λ k. get w m.member_to ≡ some k) (sym same) e,
    )

pub led_by_at :
    (w : ℕ) (m : Manager) (s : Syndicate)
    → led_by w m ≡ some s
    → (get_member_syndicate w m ≡ some s) × (s.leader_id ≡ w)
unfolding led_by
led_by_at w m s h = elim (Option-cases (get_member_syndicate w m)) [
  | inl e ↦ absurd (ground (arith, e))
  | inr (t, e) ↦ ground (arith, e)
]

has-update :
    (w k : ℕ) (f : Member → Member) (ms : JsMap ℕ Member) → has w (update k f ms) ≡ has w ms
has-update w k f ms = elim (Option-cases (get w ms)) [
  | inl e ↦ ground (arith, e, get-update w k f ms)
  | inr (x, e) ↦ ground (arith, e, get-update w k f ms)
]

-- A change of one member that keeps its wallet and whether it leads.
KeepsLeading : (Member → Member) → Member → Type 0
KeepsLeading f x = ((f x).wallet ≡ x.wallet) × (is_leader (f x).role ≡ is_leader x.role)

update-roles :
    (s : Syndicate) (k : ℕ) (f : Member → Member)
    → ((w : ℕ) (x : Member) → get w s.members ≡ some x → IsMemberOf s w x)
    → ((x : Member) → get k s.members ≡ some x → KeepsLeading f x)
    → (w : ℕ) (y : Member) → get w (update k f s.members) ≡ some y
    → IsMemberOf s w y
unfolding KeepsLeading
update-roles s k f roles keep w y e = elim (Option-cases (get w s.members)) [
  | inl n ↦ absurd (ground (arith, e, n, get-update w k f s.members))
  | inr (x, h) ↦ elim (Bool-cases (w == k)) [
    | inl hit ↦
        (let there : get k s.members ≡ some x = ground (arith, hit, h) in
          let kept = keep x there in
          let is : y ≡ f x = ground (arith, e, h, hit, get-update w k f s.members) in
          let old = roles w x h in rw is (kept.0 ∙ old.0, kept.1 ∙ old.1))
    | inr miss ↦
        (let is : y ≡ x = ground (arith, e, h, miss, get-update w k f s.members) in
          rw is (roles w x h))
  ]
]

-- A change in place of one member, and of the treasury.
abbrev pub with_member : ℕ → (Member → Member) → ℕ → Syndicate → Syndicate
with_member k f treasury s = record s { members = update k f s.members; treasury = treasury }

with_member-Consistent :
    (m : Manager) (s : Syndicate) (k : ℕ) (f : Member → Member) (treasury : ℕ)
    → Consistent m
    → get s.id m.syndicates ≡ some s
    → ((x : Member) → get k s.members ≡ some x → KeepsLeading f x)
    → Consistent (put (with_member k f treasury s) m)
with_member-Consistent m s k f treasury c found keep =
    let u = c.sound s.id s found in
    put-Consistent m s.id s (with_member k f treasury s) c found
      (record { id = refl; tag = refl; members = λ w. has-update w k f s.members })
      (record {
        same_id = refl;
        led = has-update s.leader_id k f s.members ∙ u.led;
        roles = λ w y e. update-roles s k f u.roles keep w y e;
        bounded = omega (arith, size-update k f s.members, u.bounded);
        split = u.split;
      })

hand_over-roles :
    (old new : ℕ) (s : Syndicate)
    → s.leader_id ≡ old
    → ((w : ℕ) (x : Member) → get w s.members ≡ some x → IsMemberOf s w x)
    → (w : ℕ) (y : Member) → get w (hand_over old new s).members ≡ some y
    → IsMemberOf (hand_over old new s) w y
hand_over-roles old new s lead roles w y e = elim (Option-cases (get w s.members)) [
  | inl n ↦ absurd (
      ground (
        arith,
        e,
        n,
        get-update w new (with_role leader) (update old (with_role officer) s.members),
        get-update w old (with_role officer) s.members,
      ))
  | inr (x, h) ↦ ground (
    arith,
    e,
    h,
    roles w x h,
    get-update w new (with_role leader) (update old (with_role officer) s.members),
    get-update w old (with_role officer) s.members,
  )
]

hand_over-Consistent :
    (m : Manager) (old new : ℕ) (s : Syndicate)
    → Consistent m
    → get s.id m.syndicates ≡ some s
    → s.leader_id ≡ old
    → has new s.members ≡ true
    → Consistent (put (hand_over old new s) m)
hand_over-Consistent m old new s c found lead there =
    let u = c.sound s.id s found in
    let first = update old (with_role officer) s.members in
    let same = λ (w : ℕ).
      has-update w new (with_role leader) first ∙ has-update w old (with_role officer) s.members in
    put-Consistent m s.id s (hand_over old new s) c found
      (record { id = refl; tag = refl; members = same })
      (record {
        same_id = refl;
        led = same new ∙ there;
        roles = λ w y e. hand_over-roles old new s lead u.roles w y e;
        bounded = omega (
          arith,
          size-update new (with_role leader) first,
          size-update old (with_role officer) s.members,
          u.bounded,
        );
        split = u.split;
      })

settings-Consistent :
    (m : Manager) (s : Syndicate) (st : Settings)
    → Consistent m
    → get s.id m.syndicates ≡ some s
    → st.reward_split ≤ max_treasury_split
    → Consistent (put (record s { settings = st }) m)
settings-Consistent m s st c found small =
    let u = c.sound s.id s found in
    put-Consistent m s.id s (record s { settings = st }) c found
      (record { id = refl; tag = refl; members = λ w. refl })
      (record {
        same_id = refl;
        led = u.led;
        roles = λ w x e. let r = u.roles w x e in (r.0, r.1);
        bounded = u.bounded;
        split = small;
      })

-- What an operation leaves: the manager it returns, or the old one where it is refused.
abbrev pub settle : Manager → Result Error Manager → Manager
settle m (ok m') = m'
settle m (err e) = m

pub settle_keeps :
    (P : Manager → Type 0) (m : Manager) (r : Result Error Manager)
    → P m
    → ((m' : Manager) → r ≡ ok m' → P m')
    → P (settle m r)
settle_keeps P m (ok m') h k = k m' refl
settle_keeps P m (err e) h k = h

-- A promotion that goes through was made by the leader, of a plain member, with a place for one more
-- officer, and changes that role and nothing else.
pub promote_member_ok :
    (w target : ℕ) (m m' : Manager)
    → promote_member w target m ≡ ok m'
    → (s : Syndicate) × (led_by w m ≡ some s)
      × (x : Member) × (get target s.members ≡ some x)
      × (x.role ≡ member)
      × (officer_count s.members < max_officers)
      × (m' ≡ put (record s { members = update target (with_role officer) s.members }) m)
unfolding promote_member
promote_member_ok w target m m' h = ground arith

pub demote_member_ok :
    (w target : ℕ) (m m' : Manager)
    → demote_member w target m ≡ ok m'
    → (s : Syndicate) × (led_by w m ≡ some s)
      × (x : Member) × (get target s.members ≡ some x)
      × (x.role ≡ officer)
      × (m' ≡ put (record s { members = update target (with_role member) s.members }) m)
unfolding demote_member
demote_member_ok w target m m' h = ground arith

pub transfer_leadership_ok :
    (old new : ℕ) (m m' : Manager)
    → transfer_leadership old new m ≡ ok m'
    → (s : Syndicate) × (led_by old m ≡ some s)
      × (has new s.members ≡ true)
      × (m' ≡ put (hand_over old new s) m)
unfolding transfer_leadership
transfer_leadership_ok old new m m' h = ground arith

pub deposit_to_treasury_ok :
    (w amount : ℕ) (m m' : Manager)
    → deposit_to_treasury w amount m ≡ ok m'
    → (s : Syndicate) × (get_member_syndicate w m ≡ some s)
      × (0 < amount)
      × (m'
          ≡ put
              (with_member w
                (λ (x : Member). record x { contributed = x.contributed + amount })
                (s.treasury + amount)
                s)
              m)
unfolding deposit_to_treasury
deposit_to_treasury_ok w amount m m' h = ground arith

pub withdraw_from_treasury_ok :
    (w amount : ℕ) (m m' : Manager)
    → withdraw_from_treasury w amount m ≡ ok m'
    → (s : Syndicate) × (led_by w m ≡ some s)
      × (amount ≤ s.treasury)
      × (m' ≡ put (record s { treasury = s.treasury - amount }) m)
unfolding withdraw_from_treasury
withdraw_from_treasury_ok w amount m m' h = ground arith

-- The leader's change goes through where the split, if it is given, is at most the maximum; what is
-- not given stays.
pub update_settings_ok :
    (w : ℕ) (c : SettingsChange) (m m' : Manager)
    → update_settings w c m ≡ ok m'
    → (s : Syndicate) × (led_by w m ≡ some s)
      × (holds bad_reward_split c.reward_split ≡ false)
      × (m' ≡ put (record s { settings = changed c s.settings }) m)
unfolding update_settings
update_settings_ok w c m m' h = ground arith

changed_split :
    (c : SettingsChange) (st : Settings)
    → holds bad_reward_split c.reward_split ≡ false
    → st.reward_split ≤ max_treasury_split
    → (changed c st).reward_split ≤ max_treasury_split
changed_split c st h small = ground arith

pub promote_member-Consistent :
    (w target : ℕ) (m : Manager) → Consistent m → Consistent (settle m (promote_member w target m))
promote_member-Consistent w target m c =
    settle_keeps Consistent m (promote_member w target m) c λ m' done.
      let (s, led, x, found, plain, _, eq) = promote_member_ok w target m m' done in
      rw eq (
        with_member-Consistent m s target (with_role officer) s.treasury c
          (found_at w m s c (led_by_at w m s led).0).0
          (λ y e. unfold KeepsLeading in ground (arith, found, plain, e)))

pub demote_member-Consistent :
    (w target : ℕ) (m : Manager) → Consistent m → Consistent (settle m (demote_member w target m))
demote_member-Consistent w target m c =
    settle_keeps Consistent m (demote_member w target m) c λ m' done.
      let (s, led, x, found, is, eq) = demote_member_ok w target m m' done in
      rw eq (
        with_member-Consistent m s target (with_role member) s.treasury c
          (found_at w m s c (led_by_at w m s led).0).0
          (λ y e. unfold KeepsLeading in ground (arith, found, is, e)))

pub transfer_leadership-Consistent :
    (old new : ℕ) (m : Manager)
    → Consistent m
    → Consistent (settle m (transfer_leadership old new m))
transfer_leadership-Consistent old new m c =
    settle_keeps Consistent m (transfer_leadership old new m) c λ m' done.
      let (s, led, there, eq) = transfer_leadership_ok old new m m' done in
      let at = led_by_at old m s led in
      rw eq (hand_over-Consistent m old new s c (found_at old m s c at.0).0 at.1 there)

pub update_settings-Consistent :
    (w : ℕ) (ch : SettingsChange) (m : Manager)
    → Consistent m
    → Consistent (settle m (update_settings w ch m))
update_settings-Consistent w ch m c =
    settle_keeps Consistent m (update_settings w ch m) c λ m' done.
      let (s, led, good, eq) = update_settings_ok w ch m m' done in
      let at = (found_at w m s c (led_by_at w m s led).0).0 in
      rw eq (
        settings-Consistent m s (changed ch s.settings) c at
          (changed_split ch s.settings good (c.sound s.id s at).split))

pub deposit_to_treasury-Consistent :
    (w amount : ℕ) (m : Manager)
    → Consistent m
    → Consistent (settle m (deposit_to_treasury w amount m))
deposit_to_treasury-Consistent w amount m c =
    settle_keeps Consistent m (deposit_to_treasury w amount m) c λ m' done.
      let (s, mine, _, eq) = deposit_to_treasury_ok w amount m m' done in
      rw eq (
        with_member-Consistent m s w
          (λ (x : Member). record x { contributed = x.contributed + amount }) (s.treasury + amount)
          c (found_at w m s c mine).0 (λ y e. unfold KeepsLeading in (refl, refl)))

pub withdraw_from_treasury-Consistent :
    (w amount : ℕ) (m : Manager)
    → Consistent m
    → Consistent (settle m (withdraw_from_treasury w amount m))
withdraw_from_treasury-Consistent w amount m c =
    settle_keeps Consistent m (withdraw_from_treasury w amount m) c λ m' done.
      let (s, led, _, eq) = withdraw_from_treasury_ok w amount m m' done in
      let at = (found_at w m s c (led_by_at w m s led).0).0 in
      let u = c.sound s.id s at in
      rw eq (
        put-Consistent m s.id s (record s { treasury = s.treasury - amount }) c at
          (record { id = refl; tag = refl; members = λ v. refl })
          (record {
            same_id = refl;
            led = u.led;
            roles = λ v x e. let r = u.roles v x e in (r.0, r.1);
            bounded = u.bounded;
            split = u.split;
          }))
