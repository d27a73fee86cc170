-- ===== src/Syndicate/Tests.antt =====
-- Runs of the syndicates, and their theorems at concrete states.
use astroid_club.Prelude.Result.{ok}
use astroid_club.Prelude.{List, [], arith, nat_eq, none, refl, some, sum_by, ◌+◌, ◌∷◌, ◌≡◌}
use astroid_club.Text.{Text, text_eq}
use astroid_club.JsMap.{get}
use astroid_club.Syndicate.{
  leader, member, Syndicate, Manager, enroll, new_syndicate, create_syndicate, join, accept_invite,
  invite_player, kick_member, remove_member, led_by, get_member_syndicate, transfer_leadership,
  officer_count,
}
use astroid_club.Syndicate.Names.{validate_name, validate_tag}
use astroid_club.Syndicate.Burn.{Stake, burn_plan, burn_plan_exact}
use astroid_club.Syndicate.Invariant.{Consistent}
use astroid_club.Syndicate.Authority.{MayRemove, kick_member_safe, transfer_leadership_officers}
use astroid_club.Syndicate.Reach.{
  Reach, here, next, creates, invites_player, accepts, empty_manager, empty_manager-Consistent,
  Reach-Consistent,
}

-- "Dust Ring" and the tag "dr", which has two characters.
abbrev dust_ring : Text
dust_ring = b'D' ∷ b'u' ∷ b's' ∷ b't' ∷ b' ' ∷ b'R' ∷ b'i' ∷ b'n' ∷ b'g' ∷ []

abbrev short_tag : Text
short_tag = b'd' ∷ b'r' ∷ []

two_letter_tag : validate_tag [] short_tag ≡ none
unfolding validate_tag
two_letter_tag = refl

abbrev three_stakes : List Stake
three_stakes =
    record { asteroid = 1; amount = 300 }
    ∷ record { asteroid = 2; amount = 600 }
    ∷ record { asteroid = 3; amount = 400 }
    ∷ []

burn_order :
    burn_plan 1000 three_stakes
    ≡ record { asteroid = 2; amount = 600 } ∷ record { asteroid = 3; amount = 400 } ∷ []
unfolding burn_plan
burn_order = refl

burn_plan_exact_example : sum_by (λ (s : Stake). s.amount) (burn_plan 1000 three_stakes) ≡ 1000
burn_plan_exact_example = burn_plan_exact 1000 three_stakes (omega arith)

-- Wallet 1 founds syndicate 9, invites wallet 2, and wallet 2 accepts.
founded : Manager
unfolding enroll new_syndicate empty_manager
founded = enroll (new_syndicate 100 9 1 dust_ring short_tag) empty_manager

invited : Manager
unfolding founded
invited = record founded { invites = (2, (9, tt) ∷ []) ∷ [] }

joined : Manager
unfolding join invited
joined = join 120 2 (new_syndicate 100 9 1 dust_ring short_tag) invited

history : Reach empty_manager joined
unfolding empty_manager founded invited joined create_syndicate invite_player accept_invite
    validate_name validate_tag
history =
    next
      (next
        (next here (
          creates 100 9 1 dust_ring short_tag 1300 three_stakes (burn_plan 1000 three_stakes)
            {m' = founded} refl refl))
        (invites_player 1 2 {m' = invited} refl))
      (accepts 120 2 9 {m' = joined} refl)

Reach-Consistent_example : Consistent joined
Reach-Consistent_example = Reach-Consistent empty_manager-Consistent history

joined-Consistent : Consistent joined
joined-Consistent = Reach-Consistent empty_manager-Consistent history

-- The syndicate of the two.
pair : Syndicate
unfolding joined
pair = record (new_syndicate 100 9 1 dust_ring short_tag) {
  members =
      (1, record { wallet = 1; role = leader; joined_at = 100; contributed = 0 })
      ∷ (2, record { wallet = 2; role = member; joined_at = 120; contributed = 0 })
      ∷ [];
}

kicked : Manager
unfolding joined pair remove_member
kicked = remove_member 2 pair joined

kick_member_safe_example :
    (s : Syndicate) × (s' : Syndicate) × (get_member_syndicate 1 joined ≡ some s)
    × (get_member_syndicate 2 joined ≡ some s)
    × MayRemove 1 2 s
    × (get s.id kicked.syndicates ≡ some s')
    × (get 2 s'.members ≡ none)
    × (get 1 s'.members ≡ get 1 s.members)
    × (get 2 kicked.member_to ≡ none)
    × (get 1 kicked.member_to ≡ get 1 joined.member_to)
unfolding kicked joined pair kick_member new_syndicate
kick_member_safe_example = kick_member_safe 1 2 1 joined kicked joined-Consistent refl (omega arith)

transfer_leadership_officers_example :
    (m' : Manager) × (s' : Syndicate) × (transfer_leadership 1 2 joined ≡ ok m')
    × (led_by 2 m' ≡ some s')
    × (officer_count s'.members ≡ officer_count pair.members + 1)
unfolding joined pair led_by new_syndicate
transfer_leadership_officers_example =
    transfer_leadership_officers 1 2 joined pair
      (record { wallet = 2; role = member; joined_at = 120; contributed = 0 }) joined-Consistent
      refl refl refl
