-- ===== src/EmissionGovernor/Tests.antt =====
-- Runs of the emission governor, and the theorems at concrete inputs.
use astroid_club.Prelude.{
  List, [], arith, false, if◌then◌else◌, leb, ltb, nat_eq, none, refl, some, ◌&&◌, ◌+◌, ◌∷◌, ◌≡◌,
  ◌≤◌,
}
use astroid_club.Prelude.Int.{pos, not_finite}
use astroid_club.EmissionGovernor.{
  Governor, new_governor, clamp_taper, budget, scale, apply, get_status, backing_scale, daily_scale,
  prune, prune_loop, record_issue, pushed,
}
use astroid_club.EmissionGovernor.Issued.{
  Event, issues, asks, after, step, Ordered, issued, daily_issued_exact,
}
use astroid_club.EmissionGovernor.Scale.{backing_holds, apply-after}

-- A budget of 1000 with a quarter's taper, and a cap of 300 a day.
abbrev governor : Governor
governor = new_governor (pos 1000) false none (some (pos 300))

-- Newest first: 100 credits on the first day, 250 later.
abbrev calls : List Event
calls = issues 86500000 (pos 250) ∷ asks 86400001 not_finite 0 ∷ issues 0 (pos 100) ∷ []

in_band : (apply 90000000 not_finite 100 875 (new_governor (pos 1000) false none none)).1 ≡ 50
unfolding apply scale daily_scale backing_scale budget prune prune_loop new_governor clamp_taper
in_band = refl

under_cap : (get_status 90000000 not_finite 0 (after governor calls)).1.daily_issued ≡ 250
unfolding get_status apply scale daily_scale backing_scale budget prune prune_loop new_governor
    clamp_taper after step record_issue pushed
under_cap = refl

daily_issued_exact_example :
    (get_status 90000000 not_finite 0 (after governor calls)).1.daily_issued ≡ issued 90000000 calls
unfolding Ordered
daily_issued_exact_example =
    daily_issued_exact (pos 1000) false none (some (pos 300)) calls 90000000 0 not_finite
      (omega arith, (omega arith, (omega arith, tt)))

apply-after_example : (apply 90000000 not_finite 60 800 (after governor calls)).1 ≡ (
    if ltb 0 governor.daily_cap && leb governor.daily_cap (issued 90000000 calls)
    then 0
    else (apply 90000000 not_finite 60 800 governor).1)
unfolding Ordered
apply-after_example =
    apply-after (pos 1000) false none (some (pos 300)) calls 90000000 60 800 not_finite
      (omega arith, (omega arith, (omega arith, tt)))

backing_holds_example :
    800 + (apply 90000000 not_finite 60 800 (after governor calls)).1 ≤ budget not_finite governor
unfolding budget new_governor clamp_taper
backing_holds_example =
    backing_holds (pos 1000) false none (some (pos 300)) calls 90000000 60 800 not_finite
      (omega arith) (omega arith) (omega arith)
