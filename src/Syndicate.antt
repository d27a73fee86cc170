-- ===== src/Syndicate.antt =====
-- server/game/syndicate-manager.ts: the syndicates, their members, invites and treasuries. Wallets
-- and syndicate ids are opaque keys; the id that `generateId` draws, the clock and the stakes that
-- the stake manager reports are arguments.
pub mod Names
pub mod Burn
pub mod Invariant
pub mod Changes
pub mod Membership
pub mod Joining
pub mod Leaving
pub mod Disbanding
pub mod Founding
pub mod Authority
pub mod Reach
mod Tests
use astroid_club.Prelude.Result.{Result, ok, err, ◌>>=◌, ◌>>◌, refuse_if, or_fail}
use astroid_club.JsMap.Sums.{total}
use astroid_club.Prelude.{
  All, Bool, Bool-cases, Eq, List, Option, Option-cases, [], ap, arith, false, get_or, holds,
  if◌then◌else◌, inl, inr, is_some, leb, length, length-append, ltb, map, max, min, nat_beq_iff,
  nat_eq, none, not, refl, some, subst, suc, sum_by, sum_by-append, sym, true, zero, ℕ, ◌%◌, ◌&&◌,
  ◌*◌, ◌++◌, ◌+◌, ◌-◌, ◌/◌, ◌<◌, ◌==◌, ◌||◌, ◌↔◌, ◌∙◌, ◌∷◌, ◌≡◌, ◌≢◌, ◌≤◌, ◌⊎◌,
}
use astroid_club.Prelude.Int.{ℤ, pos, negsuc}
use mathlib.Core.Option
use astroid_club.Text.{Text, text_eq, to_upper_case, trim}
use astroid_club.JsMap.{JsMap, JsSet, get, has, set, delete, update, add, size, values}
use Names.{NameError, validate_name, validate_tag}
use Burn.{Stake, burn_plan}

abbrev pub creation_cost : ℕ
creation_cost = 1000

abbrev pub max_members : ℕ
max_members = 50

abbrev pub max_officers : ℕ
max_officers = 5

abbrev pub max_treasury_split : ℕ
max_treasury_split = 30

pub data Role : Type 0 where
  leader officer member : Role

abbrev pub is_officer : Role → Bool
is_officer officer = true
is_officer leader = false
is_officer member = false

abbrev pub is_leader : Role → Bool
is_leader leader = true
is_leader officer = false
is_leader member = false

abbrev pub is_plain : Role → Bool
is_plain member = true
is_plain leader = false
is_plain officer = false

-- `SyndicateMember`
pub record Member : Type 0 where
  pub wallet : ℕ
  pub role : Role
  pub joined_at : ℕ
  pub contributed : ℕ

-- `SyndicateSettings`
pub record Settings : Type 0 where
  pub reward_split : ℕ
  pub raid_coordination : Bool
  pub defense_alerts : Bool

-- `Syndicate`, without the wars, which this component only sets to none.
pub record Syndicate : Type 0 where
  pub id : ℕ
  pub name : Text
  pub tag : Text
  pub leader_id : ℕ
  pub members : JsMap ℕ Member
  pub created_at : ℕ
  pub treasury : ℕ
  pub settings : Settings

pub record Manager : Type 0 where
  pub syndicates : JsMap ℕ Syndicate
  pub member_to : JsMap ℕ ℕ
  pub invites : JsMap ℕ (JsSet ℕ)
  pub tags : JsSet Text
  pub total_created : ℕ
  pub total_burned : ℕ

pub data Error : Type 0 where
  in_syndicate no_stake not_leader not_manager not_in_syndicate full target_in_syndicate : Error
  no_invite gone must_transfer kick_self officer_kick not_member not_plain not_officer : Error
  too_many_officers bad_split not_positive bad_amount : Error
  bad_name : NameError → Error

abbrev pub refuse_name : Option NameError → Result Error (Unit {0})
refuse_name none = ok tt
refuse_name (some e) = err (bad_name e)

pub get_member_syndicate : ℕ → Manager → Option Syndicate
get_member_syndicate w m = elim (get w m.member_to) [ none ↦ none | some id ↦ get id m.syndicates ]

pub get_member_role : ℕ → Manager → Option Role
unfolding get_member_syndicate
get_member_role w m = elim (get_member_syndicate w m) [
  | none ↦ none
  | some s ↦ elim (get w s.members) [ none ↦ none | some x ↦ some x.role ]
]

pub can_manage_members : ℕ → Manager → Bool
unfolding get_member_role
can_manage_members w m = holds (λ r. is_leader r || is_officer r) (get_member_role w m)

-- `!syndicate || syndicate.leaderId !== wallet`
pub led_by : ℕ → Manager → Option Syndicate
unfolding get_member_syndicate
led_by w m = elim (get_member_syndicate w m) [
  | none ↦ none
  | some s ↦ if s.leader_id == w then some s else none
]

-- The syndicate object after a change in place.
abbrev pub put : Syndicate → Manager → Manager
put s m = record m { syndicates = set s.id s m.syndicates }

abbrev pub default_settings : Settings
default_settings = record { reward_split = 0; raid_coordination = true; defense_alerts = true }

pub new_syndicate : ℕ → ℕ → ℕ → Text → Text → Syndicate
new_syndicate now id founder name tag = record {
  id = id;
  name = trim name;
  tag = to_upper_case tag;
  leader_id = founder;
  members =
      (founder, record { wallet = founder; role = leader; joined_at = now; contributed = 0 }) ∷ [];
  created_at = now;
  treasury = 0;
  settings = default_settings;
}

pub enroll : Syndicate → Manager → Manager
enroll s m = record m {
  syndicates = set s.id s m.syndicates;
  member_to = set s.leader_id s.id m.member_to;
  tags = add s.tag m.tags;
  total_created = m.total_created + 1;
  total_burned = m.total_burned + creation_cost;
}

-- `createSyndicate`: the manager after it and the stakes to take, in order.
pub create_syndicate :
    (now id founder : ℕ) (name tag : Text) (total_stake : ℕ) (stakes : List Stake)
    → Manager
    → Result Error (Manager × List Stake)
unfolding enroll new_syndicate
create_syndicate now id founder name tag total_stake stakes m = do
  refuse_if (has founder m.member_to) in_syndicate
  refuse_name (validate_name name)
  refuse_name (validate_tag m.tags tag)
  refuse_if (ltb total_stake creation_cost) no_stake
  ok (enroll (new_syndicate now id founder name tag) m, burn_plan creation_cost stakes)

pub forget_all : JsMap ℕ Member → JsMap ℕ ℕ → JsMap ℕ ℕ
forget_all [] mt = mt
forget_all ((w, x) ∷ rest) mt = forget_all rest (delete w mt)

pub dissolve : Syndicate → Manager → Manager
unfolding forget_all
dissolve s m = record m {
  member_to = forget_all s.members m.member_to;
  tags = delete s.tag m.tags;
  syndicates = delete s.id m.syndicates;
}

pub disband_syndicate : ℕ → Manager → Result Error Manager
unfolding dissolve led_by
disband_syndicate w m = do s ← or_fail (led_by w m) not_leader; ok (dissolve s m)

pub invite_player : ℕ → ℕ → Manager → Result Error Manager
unfolding can_manage_members get_member_syndicate
invite_player inviter target m = do
  refuse_if (not (can_manage_members inviter m)) not_manager
  s ← or_fail (get_member_syndicate inviter m) not_in_syndicate
  refuse_if (leb max_members (size s.members)) full
  refuse_if (has target m.member_to) target_in_syndicate
  ok (record m { invites = set target (add s.id (get_or (get target m.invites) [])) m.invites })

pub join : ℕ → ℕ → Syndicate → Manager → Manager
join now w s m = record m {
  syndicates =
      set s.id
        (record s {
          members =
              set w (record { wallet = w; role = member; joined_at = now; contributed = 0 })
                s.members;
        })
        m.syndicates;
  member_to = set w s.id m.member_to;
  invites = delete w m.invites;
}

pub accept_invite : ℕ → ℕ → ℕ → Manager → Result Error Manager
unfolding join
accept_invite now w id m = do
  refuse_if (not (has id (get_or (get w m.invites) []))) no_invite
  refuse_if (has w m.member_to) in_syndicate
  s ← or_fail (get id m.syndicates) gone
  refuse_if (leb max_members (size s.members)) full
  ok (join now w s m)

pub decline_invite : ℕ → ℕ → Manager → Manager
decline_invite w id m = elim (get w m.invites) [
  | none ↦ m
  | some ids ↦
      (let left = delete id ids in
        record m { invites = if size left == 0 then delete w m.invites else set w left m.invites })
]

-- A member leaves the members and the index.
pub remove_member : ℕ → Syndicate → Manager → Manager
remove_member w s m = record m {
  syndicates = set s.id (record s { members = delete w s.members }) m.syndicates;
  member_to = delete w m.member_to;
}

-- How a member leaves: a leader only when alone, by disbanding.
leave_as : Bool → ℕ → Syndicate → Manager → Result Error Manager
unfolding disband_syndicate remove_member
leave_as true w s m = if ltb 1 (size s.members) then err must_transfer else disband_syndicate w m
leave_as false w s m = ok (remove_member w s m)

pub leave_syndicate : ℕ → Manager → Result Error Manager
unfolding get_member_syndicate leave_as
leave_syndicate w m = do
  s ← or_fail (get_member_syndicate w m) not_in_syndicate
  leave_as (s.leader_id == w) w s m

-- What `kickMember` refuses by the two roles.
pub kick_guard : ℕ → ℕ → Option Role → Option Role → Result Error (Unit {0})
kick_guard kicker target (some leader) tr = refuse_if (target == kicker) kick_self
kick_guard kicker target (some officer) tr = refuse_if (not (holds is_plain tr)) officer_kick
kick_guard kicker target (some member) tr = err not_manager
kick_guard kicker target none tr = err not_manager

pub kick_member : ℕ → ℕ → Manager → Result Error Manager
unfolding get_member_syndicate get_member_role kick_guard remove_member
kick_member kicker target m = do
  s ← or_fail (get_member_syndicate kicker m) not_in_syndicate
  kick_guard kicker target (get_member_role kicker m) (get_member_role target m)
  refuse_if (not (has target s.members)) not_member
  ok (remove_member target s m)

abbrev pub with_role : Role → Member → Member
with_role r x = record x { role = r }

abbrev pub officer_unit : Member → ℕ
officer_unit x = if is_officer x.role then 1 else 0

-- The loop of `promoteMember` over the members.
pub officer_count : JsMap ℕ Member → ℕ
officer_count = total officer_unit

pub promote_member : ℕ → ℕ → Manager → Result Error Manager
unfolding led_by officer_count
promote_member w target m = do
  s ← or_fail (led_by w m) not_leader
  x ← or_fail (get target s.members) not_member
  refuse_if (not (is_plain x.role)) not_plain
  refuse_if (leb max_officers (officer_count s.members)) too_many_officers
  ok (put (record s { members = update target (with_role officer) s.members }) m)

pub demote_member : ℕ → ℕ → Manager → Result Error Manager
unfolding led_by
demote_member w target m = do
  s ← or_fail (led_by w m) not_leader
  x ← or_fail (get target s.members) not_member
  refuse_if (not (is_officer x.role)) not_officer
  ok (put (record s { members = update target (with_role member) s.members }) m)

-- The old leader becomes an officer first, then the new one the leader.
abbrev pub hand_over : ℕ → ℕ → Syndicate → Syndicate
hand_over old new s = record s {
  members = update new (with_role leader) (update old (with_role officer) s.members);
  leader_id = new;
}

pub transfer_leadership : ℕ → ℕ → Manager → Result Error Manager
unfolding led_by
transfer_leadership old new m = do
  s ← or_fail (led_by old m) not_leader
  refuse_if (not (has new s.members)) not_member
  ok (put (hand_over old new s) m)

-- `Partial<SyndicateSettings>`
pub record Change : Type 0 where
  pub reward_split : Option ℤ
  pub raid_coordination : Option Bool
  pub defense_alerts : Option Bool

-- Whether a reward split is outside its bounds.
abbrev pub bad_reward_split : ℤ → Bool
bad_reward_split (pos n) = ltb max_treasury_split n
bad_reward_split (negsuc n) = true

abbrev pub split_of : ℤ → ℕ
split_of (pos n) = n
split_of (negsuc n) = 0

-- The settings after a change: what is not given stays.
abbrev pub changed : Change → Settings → Settings
changed c s = record {
  reward_split = get_or (Option.map split_of c.reward_split) s.reward_split;
  raid_coordination = get_or c.raid_coordination s.raid_coordination;
  defense_alerts = get_or c.defense_alerts s.defense_alerts;
}

pub update_settings : ℕ → Change → Manager → Result Error Manager
unfolding led_by
update_settings w c m = do
  s ← or_fail (led_by w m) not_leader
  refuse_if (holds bad_reward_split c.reward_split) bad_split
  ok (put (record s { settings = changed c s.settings }) m)

pub deposit_to_treasury : ℕ → ℕ → Manager → Result Error Manager
unfolding get_member_syndicate
deposit_to_treasury w amount m = do
  s ← or_fail (get_member_syndicate w m) not_in_syndicate
  refuse_if (leb amount 0) not_positive
  ok (
      put
        (record s {
          treasury = s.treasury + amount;
          members =
              update w (λ (x : Member). record x { contributed = x.contributed + amount })
                s.members;
        })
        m)

pub withdraw_from_treasury : ℕ → ℕ → Manager → Result Error Manager
unfolding led_by
withdraw_from_treasury w amount m = do
  s ← or_fail (led_by w m) not_leader
  refuse_if (leb amount 0 || ltb s.treasury amount) bad_amount
  ok (put (record s { treasury = s.treasury - amount }) m)
