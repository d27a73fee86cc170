-- ===== src/Syndicate/Authority.antt =====
-- Who may do what: removal of members, and the count of officers over a change of leader.
use astroid_club.Prelude.Result.{ok}
use astroid_club.Prelude.{
  Bool-cases, Option, Option-cases, [], ap, arith, false, get_or, inl, inr, nat_eq, none, refl,
  some, subst, sym, true, ℕ, ◌+◌, ◌<◌, ◌==◌, ◌∙◌, ◌≡◌, ◌≢◌, ◌≤◌, ◌⊎◌,
}
use astroid_club.JsMap.{JsMap, get, has, update, size, add, set, delete}
use astroid_club.JsMap.Laws.{get-set, get-delete, get-update, beq_refl}
use astroid_club.JsMap.Sums.{total-update}
use astroid_club.Syndicate.{
  Role, leader, officer, member, Member, Syndicate, Manager, max_members, put, is_leader, with_role,
  get_member_syndicate, get_member_role, led_by, dissolve, disband_syndicate, join, accept_invite,
  remove_member, leave_as, leave_syndicate, kick_guard, kick_member, hand_over, transfer_leadership,
  officer_unit, officer_count, can_manage_members, invite_player,
}
use astroid_club.Syndicate.Invariant.{Consistent}
use astroid_club.Syndicate.Changes.{found_at, led_by_at}

pub accept_invite_ok :
    (now w id : ℕ) (m m' : Manager)
    → accept_invite now w id m ≡ ok m'
    → (s : Syndicate) × (get id m.syndicates ≡ some s)
      × (get w m.member_to ≡ none)
      × (size s.members < max_members)
      × (m' ≡ join now w s m)
unfolding accept_invite
accept_invite_ok now w id m m' h = ground arith

-- An invite that goes through was made by a leader or an officer of a syndicate with room, to a wallet
-- that is in none; it is recorded, and nothing else changes.
pub invite_player_ok :
    (w target : ℕ) (m m' : Manager)
    → invite_player w target m ≡ ok m'
    → (s : Syndicate) × (get_member_syndicate w m ≡ some s)
      × (can_manage_members w m ≡ true)
      × (size s.members < max_members)
      × (get target m.member_to ≡ none)
      × (m' ≡ record m {
        invites = set target (add s.id (get_or (get target m.invites) [])) m.invites;
      })
unfolding invite_player
invite_player_ok w target m m' h = ground arith

pub disband_syndicate_ok :
    (w : ℕ) (m m' : Manager)
    → disband_syndicate w m ≡ ok m'
    → (s : Syndicate) × (led_by w m ≡ some s) × (m' ≡ dissolve s m)
unfolding disband_syndicate
disband_syndicate_ok w m m' h = ground arith

pub leave_syndicate_ok :
    (w : ℕ) (m m' : Manager)
    → leave_syndicate w m ≡ ok m'
    → (s : Syndicate) × (get_member_syndicate w m ≡ some s)
      × (((s.leader_id ≡ w) × (size s.members ≤ 1) × (disband_syndicate w m ≡ ok m'))
          ⊎ ((w ≢ s.leader_id) × (m' ≡ remove_member w s m)))
unfolding leave_syndicate
leave_syndicate_ok w m m' h = elim (Option-cases (get_member_syndicate w m)) [
  | inl e ↦ absurd (ground (arith, e))
  | inr (s, e) ↦ (s, e, leaves s (ground (arith, e)) (Bool-cases (s.leader_id == w)))
]
  where
    leaves :
        (s : Syndicate)
        → leave_as (s.leader_id == w) w s m ≡ ok m'
        → ((s.leader_id == w) ≡ true) ⊎ ((s.leader_id == w) ≡ false)
        → ((s.leader_id ≡ w) × (size s.members ≤ 1) × (disband_syndicate w m ≡ ok m'))
          ⊎ ((w ≢ s.leader_id) × (m' ≡ remove_member w s m))
    leaves s h (inl yes_leads) = unfold leave_as in ground (arith, yes_leads, h)
    leaves s h (inr follows) = unfold leave_as in ground (arith, follows, h)

-- What the two roles allow.
abbrev MayKick : ℕ → ℕ → Option Role → Option Role → Type 0
MayKick kicker target none tr = ⊥
MayKick kicker target (some leader) tr = target ≢ kicker
MayKick kicker target (some officer) tr = tr ≡ some member
MayKick kicker target (some member) tr = ⊥

kick_guard_ok :
    (kicker target : ℕ) (kr tr : Option Role)
    → kick_guard kicker target kr tr ≡ ok tt
    → MayKick kicker target kr tr
unfolding kick_guard
kick_guard_ok kicker target none tr h = cc
kick_guard_ok kicker target (some leader) tr h = ground arith
kick_guard_ok kicker target (some officer) none h = cc
kick_guard_ok kicker target (some officer) (some r) h = ground arith
kick_guard_ok kicker target (some member) tr h = cc

pub kick_member_ok :
    (kicker target : ℕ) (m m' : Manager)
    → kick_member kicker target m ≡ ok m'
    → (s : Syndicate) × (get_member_syndicate kicker m ≡ some s)
      × (kick_guard kicker target (get_member_role kicker m) (get_member_role target m) ≡ ok tt)
      × (has target s.members ≡ true)
      × (m' ≡ remove_member target s m)
unfolding kick_member
kick_member_ok kicker target m m' h = ground arith

get_member_role_at :
    (w : ℕ) (m : Manager) (s : Syndicate)
    → get_member_syndicate w m ≡ some s
    → get_member_role w m ≡ elim (get w s.members) [ none ↦ none | some x ↦ some x.role ]
unfolding get_member_role
get_member_role_at w m s e = ground (arith, e)

target_syndicate :
    (target : ℕ) (m : Manager) (s : Syndicate)
    → Consistent m
    → get s.id m.syndicates ≡ some s
    → has target s.members ≡ true
    → get_member_syndicate target m ≡ some s
unfolding get_member_syndicate
target_syndicate target m s c found there =
    ground (arith, found, c.listed s.id target s found there)

never_leader :
    (kr tr : Role) (lead kicker target : ℕ)
    → is_leader kr ≡ (kicker == lead)
    → is_leader tr ≡ (target == lead)
    → MayKick kicker target (some kr) (some tr)
    → target ≢ lead
never_leader leader tr lead kicker target k t may = ground arith
never_leader officer tr lead kicker target k t may = ground arith
never_leader member tr lead kicker target k t may = absurd may

member_at :
    (w : ℕ) (s : Syndicate) → has w s.members ≡ true → (x : Member) × (get w s.members ≡ some x)
member_at w s h = elim (Option-cases (get w s.members)) [
  | inl e ↦ absurd (ground (arith, h, e))
  | inr r ↦ r
]

-- The records of both, with what the guard allows by their roles.
kicked_roles :
    (kicker target : ℕ) (m : Manager) (s : Syndicate)
    → Consistent m
    → get_member_syndicate kicker m ≡ some s
    → kick_guard kicker target (get_member_role kicker m) (get_member_role target m) ≡ ok tt
    → has target s.members ≡ true
    → (k : Member) × (t : Member) × (get kicker s.members ≡ some k)
      × (get target s.members ≡ some t)
      × (is_leader k.role ≡ (kicker == s.leader_id))
      × (is_leader t.role ≡ (target == s.leader_id))
      × MayKick kicker target (some k.role) (some t.role)
kicked_roles kicker target m s c mine guard there =
    let (found, listed) = found_at kicker m s c mine in
    let roles = (c.sound s.id s found).roles in
    let (o, at, in_o) = c.enrolled kicker s.id listed in
    let same : o ≡ s = ground (arith, at, found) in
    let (k, ek) =
      member_at kicker s (ap (λ (t : Syndicate). has kicker t.members) (sym same) ∙ in_o) in
    let (t, et) = member_at target s there in
    let kr : get_member_role kicker m ≡ some k.role =
      get_member_role_at kicker m s mine ∙ ground (arith, ek) in
    let tr : get_member_role target m ≡ some t.role =
      get_member_role_at target m s (target_syndicate target m s c found there)
      ∙ ground (arith, et) in
    (
      k,
      t,
      ek,
      et,
      (roles kicker k ek).1,
      (roles target t et).1,
      kick_guard_ok kicker target (some k.role) (some t.role) (rw (kr, tr) at guard),
    )

pub kicked_not_leader :
    (kicker target : ℕ) (m : Manager) (s : Syndicate)
    → Consistent m
    → get_member_syndicate kicker m ≡ some s
    → kick_guard kicker target (get_member_role kicker m) (get_member_role target m) ≡ ok tt
    → has target s.members ≡ true
    → target ≢ s.leader_id
kicked_not_leader kicker target m s c mine guard there =
    let (k, t, ek, et, lk, lt, may) = kicked_roles kicker target m s c mine guard there in
    never_leader k.role t.role s.leader_id kicker target lk lt may

-- Who may remove whom: a leader anyone else, an officer a plain member.
abbrev pub MayRemove : (kicker target : ℕ) → Syndicate → Type 0
MayRemove kicker target s =
    ((kicker ≡ s.leader_id) × (target ≢ s.leader_id))
    ⊎ ((k : Member) × (t : Member) × (get kicker s.members ≡ some k)
        × (k.role ≡ officer)
        × (get target s.members ≡ some t)
        × (t.role ≡ member))

by_role :
    (kicker target : ℕ) (s : Syndicate) (k t : Member)
    → get kicker s.members ≡ some k
    → get target s.members ≡ some t
    → is_leader k.role ≡ (kicker == s.leader_id)
    → MayKick kicker target (some k.role) (some t.role)
    → (r : Role) → k.role ≡ r
    → MayRemove kicker target s
by_role kicker target s k t ek et lk may leader e =
    let leads : kicker ≡ s.leader_id = ground (arith, lk, e) in
    let may' : target ≢ kicker = rw e at may in inl (leads, λ h. may' (h ∙ sym leads))
by_role kicker target s k t ek et lk may officer e =
    let may' : some t.role ≡ some member = rw e at may in
    inr (k, t, ek, e, et, ground (arith, may'))
by_role kicker target s k t ek et lk may member e = absurd (rw e at may)

kicker_may :
    (kicker target : ℕ) (m : Manager) (s : Syndicate)
    → Consistent m
    → get_member_syndicate kicker m ≡ some s
    → kick_guard kicker target (get_member_role kicker m) (get_member_role target m) ≡ ok tt
    → has target s.members ≡ true
    → MayRemove kicker target s
kicker_may kicker target m s c mine guard there =
    let (k, t, ek, et, lk, lt, may) = kicked_roles kicker target m s c mine guard there in
    by_role kicker target s k t ek et lk may k.role refl

-- In a consistent state, a kick that goes through is by the leader, of someone else, or by an officer,
-- of a plain member, of the syndicate of both: afterwards the member is gone from the members and from
-- the index, and every other wallet is in the members, with its role, and in the index as before.
pub kick_member_safe :
    (kicker target v : ℕ) (m m' : Manager)
    → Consistent m
    → kick_member kicker target m ≡ ok m'
    → v ≢ target
    → (s : Syndicate) × (s' : Syndicate) × (get_member_syndicate kicker m ≡ some s)
      × (get_member_syndicate target m ≡ some s)
      × MayRemove kicker target s
      × (get s.id m'.syndicates ≡ some s')
      × (get target s'.members ≡ none)
      × (get v s'.members ≡ get v s.members)
      × (get target m'.member_to ≡ none)
      × (get v m'.member_to ≡ get v m.member_to)
kick_member_safe kicker target v m m' c done other =
    let (s, mine, guard, there, eq) = kick_member_ok kicker target m m' done in
    let found = (found_at kicker m s c mine).0 in
    let s' : Syndicate = record s { members = delete target s.members } in
    (
      s,
      s',
      mine,
      target_syndicate target m s c found there,
      kicker_may kicker target m s c mine guard there,
      rw eq (
          unfold remove_member in ground (arith, beq_refl s.id, get-set s.id s.id s' m.syndicates)),
      ground (arith, beq_refl target, get-delete target target s.members),
      ground (arith, other, get-delete v target s.members),
      rw eq (
          unfold remove_member in
          ground (arith, beq_refl target, get-delete target target m.member_to)),
      rw eq (unfold remove_member in ground (arith, other, get-delete v target m.member_to)),
    )

-- The counts over the two changes of role.
hand_over_officers :
    (old new : ℕ) (ms : JsMap ℕ Member) (x y : Member)
    → new ≢ old
    → get old ms ≡ some y
    → y.role ≡ leader
    → get new ms ≡ some x
    → x.role ≡ member
    → officer_count (update new (with_role leader) (update old (with_role officer) ms))
      ≡ officer_count ms + 1
unfolding officer_count
hand_over_officers old new ms x y ne eo lead en plain =
    let first = update old (with_role officer) ms in
    let o : get old first ≡ some (with_role officer y) =
      ground (arith, eo, beq_refl old, get-update old old (with_role officer) ms) in
    let n : get new first ≡ some x =
      ground (arith, en, ne, get-update new old (with_role officer) ms) in
    let l : get new (update new (with_role leader) first) ≡ some (with_role leader x) =
      ground (arith, n, beq_refl new, get-update new new (with_role leader) first) in
    ground (
      arith,
      o,
      n,
      l,
      lead,
      plain,
      total-update officer_unit old (with_role officer) ms,
      total-update officer_unit new (with_role leader) first,
    )

is_leader_leader : (r : Role) → is_leader r ≡ true → r ≡ leader
is_leader_leader leader h = refl
is_leader_leader officer h = cc
is_leader_leader member h = cc

led_by-put :
    (w : ℕ) (m : Manager) (s : Syndicate)
    → get w m.member_to ≡ some s.id
    → s.leader_id ≡ w
    → led_by w (put s m) ≡ some s
unfolding led_by get_member_syndicate
led_by-put w m s listed lead =
    ground (arith, listed, lead, beq_refl s.id, get-set s.id s.id s m.syndicates)

-- The officers after a change of leader: where the successor was a plain member there is one more
-- than before, whatever the maximum.
pub transfer_leadership_officers :
    (old new : ℕ) (m : Manager) (s : Syndicate) (x : Member)
    → Consistent m
    → led_by old m ≡ some s
    → get new s.members ≡ some x
    → x.role ≡ member
    → (m' : Manager) × (s' : Syndicate) × (transfer_leadership old new m ≡ ok m')
      × (led_by new m' ≡ some s')
      × (officer_count s'.members ≡ officer_count s.members + 1)
unfolding transfer_leadership officer_count
transfer_leadership_officers old new m s x c led there plain =
    let (mine, lead) = led_by_at old m s led in
    let found = (found_at old m s c mine).0 in
    let u = c.sound s.id s found in
    let (y, ey) = member_at s.leader_id s u.led in
    let s' = hand_over old new s in
    let ne : new ≢ old = ground (arith, (u.roles new x there).1, lead, plain) in
    let leads : y.role ≡ leader =
      is_leader_leader y.role ((u.roles s.leader_id y ey).1 ∙ beq_refl s.leader_id) in
    let listed = c.listed s.id new s found (ground (arith, there)) in
    (
      put s' m,
      s',
      rw led (ground (arith, there)),
      led_by-put new m s' listed refl,
      hand_over_officers old new s.members x y ne (subst (λ k. get k s.members ≡ some y) lead ey)
          leads there plain,
    )
