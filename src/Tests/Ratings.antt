-- ===== src/Tests/Ratings.antt =====
-- Examples for the ratings of teams and players and for the services of tournaments and matches.
use tournament_platform_sdd.Base.{
  ℤ, pos, ◌≡◌, ◌↔◌, refl, true, false, none, ◌≤ℤ◌, ◌+ℤ◌, ◌-ℤ◌, ◌*ℤ◌, arith,
}
use tournament_platform_sdd.Exec.{ok, err, type_error}
use tournament_platform_sdd.Models.{Match}
use tournament_platform_sdd.Models.Tables.{save_team_elo, create_team_history}
use tournament_platform_sdd.Floats.Thousandths.{thousandths}
use tournament_platform_sdd.Rating
use tournament_platform_sdd.Rating.{expected_score, elo_new, calculate_elo, k_factor}
use tournament_platform_sdd.Rating.Agreement.{elo_new-update_elo}
use tournament_platform_sdd.Rating.Bounds.{update_elo_bounds, calculate_elo_bounds}
use tournament_platform_sdd.Teams.Service.{
  loser_id, write_ratings, rate_pair, rate_teams, update_elo,
}
use tournament_platform_sdd.Teams.Idempotent.{update_elo_idempotent, update_elo_atomic}
use tournament_platform_sdd.Teams.Outcome.{IsPlayed, rated_world, update_elo_outcome}
use tournament_platform_sdd.Tournaments.TournamentService.{start}
use tournament_platform_sdd.Tournaments.Lifecycle.{started, start_outcomes}
use tournament_platform_sdd.Tests.Fixtures.{reds, blues, spring, opener, platform}

elo_new-update_elo_example :
    (Rating.update_elo thousandths (pos 1000) (pos 1000) ≡ ok (pos 1016, pos 984)) ↔ (
      (elo_new thousandths (pos 1000) (pos 1000) true ≡ ok (pos 1016))
      × (elo_new thousandths (pos 1000) (pos 1000) false ≡ ok (pos 984)))
unfolding ◌-ℤ◌
elo_new-update_elo_example =
    elo_new-update_elo thousandths (pos 1000) (pos 1000) (pos 1016) (pos 984) (omega arith)
      (omega arith)

update_elo_bounds_example :
    (w' l' : ℤ) × (Rating.update_elo thousandths (pos 1000) (pos 1400) ≡ ok (w', l'))
    × (pos 1000 ≤ℤ w')
    × (w' ≤ℤ pos 1000 +ℤ pos 32)
    × (pos 1400 ≤ℤ l' +ℤ pos 32)
    × (l' ≤ℤ pos 1400)
unfolding ◌+ℤ◌
update_elo_bounds_example =
    update_elo_bounds thousandths (pos 1000) (pos 1400) (omega arith) (omega arith) (omega arith)
      (omega arith)

calculate_elo_bounds_example :
    (w' l' : ℤ) × (calculate_elo thousandths (pos 1000) (pos 1400) k_factor ≡ ok (w', l'))
    × (pos 1000 ≤ℤ w')
    × (w' ≤ℤ pos 1000 +ℤ pos 32)
    × (pos 1400 ≤ℤ l' +ℤ pos 32)
    × (l' ≤ℤ pos 1400)
unfolding ◌+ℤ◌
calculate_elo_bounds_example =
    calculate_elo_bounds thousandths (pos 1000) (pos 1400) (omega arith) (omega arith) (omega arith)

-- The opener is rated without an exception.
opener_rated : (update_elo thousandths opener platform).0 ≡ ok tt
unfolding thousandths calculate_elo loser_id write_ratings rate_pair rate_teams update_elo
    save_team_elo create_team_history ◌+ℤ◌ ◌-ℤ◌ ◌*ℤ◌
opener_rated = refl

update_elo_idempotent_example :
    update_elo thousandths opener (update_elo thousandths opener platform).1
    ≡ (ok tt, (update_elo thousandths opener platform).1)
update_elo_idempotent_example =
    update_elo_idempotent thousandths opener opener platform refl opener_rated

-- A match without a winner cannot be rated.
undecided : Match
undecided = record opener { winner_team_id = none }

undecided_fails : (update_elo thousandths undecided platform).0 ≡ err type_error
unfolding undecided rate_teams update_elo
undecided_fails = refl

undecided_changes_nothing : (update_elo thousandths undecided platform).1 ≡ platform
undecided_changes_nothing = update_elo_atomic thousandths undecided platform undecided_fails

opener-IsPlayed : IsPlayed platform opener blues reds
unfolding loser_id
opener-IsPlayed = record {
  winner_team = 12;
  won = refl;
  winner_row = refl;
  loser_row = refl;
  apart = λ e. absurd (omega arith);
}

update_elo_outcome_example :
    (w' l' : ℤ) × (update_elo thousandths opener platform
      ≡ (ok tt, rated_world platform 32 blues reds w' l'))
    × (calculate_elo thousandths (pos 1200) (pos 1000) k_factor ≡ ok (w', l'))
    × (pos 1200 ≤ℤ w')
    × (w' ≤ℤ pos 1200 +ℤ pos 32)
    × (pos 1000 ≤ℤ l' +ℤ pos 32)
    × (l' ≤ℤ pos 1000)
unfolding ◌+ℤ◌
update_elo_outcome_example =
    update_elo_outcome thousandths opener blues reds platform opener-IsPlayed refl (omega arith)
      (omega arith) (omega arith)

start_outcomes_example : (start 21 platform).0 ≡ ok (started spring)
start_outcomes_example = (((start_outcomes 21 platform).1 spring refl).1 refl).0
