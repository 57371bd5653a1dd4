-- ===== src/Tests/Interleavings.antt =====
-- Examples for reports that fail, and for reports at the same time.
use tournament_platform_sdd.Base.{
  some, ℕ, ◌==◌, pos, ◌≡◌, refl, false, List, [], ◌∷◌, map, count_where,
}
use tournament_platform_sdd.Exec.{err, integrity_error}
use tournament_platform_sdd.Models.{World}
use tournament_platform_sdd.Models.Tables.{
  save_match, save_user_elo, save_team_elo, create_team_history,
}
use tournament_platform_sdd.Floats.Thousandths.{thousandths}
use tournament_platform_sdd.Base.{◌+ℤ◌, ◌-ℤ◌, ◌*ℤ◌}
use tournament_platform_sdd.Events.{publish_event}
use tournament_platform_sdd.Rating
use tournament_platform_sdd.Teams.Service
use tournament_platform_sdd.Teams.Service.{loser_id, write_ratings, rate_pair, rate_teams}
use tournament_platform_sdd.Tournaments.UserRating.{
  joined_users, members_of, bulk_create, for_members, rate_winner, rate_loser, update_team_elo,
}
use tournament_platform_sdd.Tournaments.MatchService.{reported, record_result, report_result}
use tournament_platform_sdd.Tournaments.Failure.{IsUnrated, report_result_failure}
use tournament_platform_sdd.Platform.Balance.{IsLedger}
use tournament_platform_sdd.Platform.Winners.{AllWinnersPlay}
use tournament_platform_sdd.Platform.Once.{HasNoTwice}
use tournament_platform_sdd.Concurrency.{
  saving, accept, advance, advance_at, System, Happening, happen, run, view_report,
}
use tournament_platform_sdd.Concurrency.Books.{run-IsLedger}
use tournament_platform_sdd.Concurrency.Winners.{run-AllWinnersPlay}
use tournament_platform_sdd.Concurrency.Race.{both_come, run-both_come}
use tournament_platform_sdd.Concurrency.Locks.{LockEvent, began, turned, run_locks}
use tournament_platform_sdd.Concurrency.Locks.Deadlock.{run_locks-no_deadlock}
use tournament_platform_sdd.Views.Access.{authenticated, has_permission, match_permissions}
use tournament_platform_sdd.Views.Matches.{ReportData, validate_report}
use tournament_platform_sdd.Tests.Fixtures.{bob, ann, final_, platform, rated, plain, setting}
use tournament_platform_sdd.Tests.States.{books, no_twice, winners_play}

-- A match of a team with itself, which nothing keeps out of the table.
abbrev mirrored : World
mirrored = record platform { matches = record final_ { team_b_id = 11 } ∷ [] }

mirror_raises : (report_result setting 31 11 (pos 3) (pos 1) false mirrored).0 ≡ err integrity_error
unfolding thousandths Rating.expected_score Rating.update_elo Rating.calculate_elo loser_id
    write_ratings rate_pair rate_teams Service.update_elo joined_users members_of bulk_create
    for_members rate_winner rate_loser update_team_elo record_result report_result save_user_elo
    save_team_elo create_team_history save_match publish_event ◌+ℤ◌ ◌-ℤ◌ ◌*ℤ◌
mirror_raises = refl

report_result_failure_example :
    IsUnrated mirrored (report_result setting 31 11 (pos 3) (pos 1) false mirrored).1
report_result_failure_example =
    (report_result_failure setting 31 11 (pos 3) (pos 1) false mirrored
      (record final_ { team_b_id = 11 }) refl mirror_raises).0

-- Both teams report the final as won: the statements of the two reports alternate to their ends.
abbrev alternating : List (Happening plain setting)
alternating =
    Happening.came 31 11 (pos 3) (pos 1) false
    ∷ Happening.came 31 12 (pos 0) (pos 2) false
    ∷ map Happening.continued (
        0 ∷ 1 ∷ 0 ∷ 1 ∷ 0 ∷ 1 ∷ 0 ∷ 1 ∷ 0 ∷ 1 ∷ 0 ∷ 1 ∷ 0 ∷ 1 ∷ 0 ∷ 1 ∷ 0 ∷ 1 ∷ 0 ∷ 1 ∷ 0 ∷ 1 ∷ 0
        ∷ 1 ∷ [])

abbrev alternated : System
alternated = run plain setting alternating (record { world = rated; reports = [] })

run-IsLedger_example : IsLedger alternated.world × HasNoTwice alternated.world
run-IsLedger_example =
    run-IsLedger plain setting alternating (record { world = rated; reports = [] }) books no_twice

-- The players are rated by both reports, the teams by one.
alternated_players : count_where (λ h. h.match_id == 31) alternated.world.user_elo_history ≡ 4
unfolding run happen advance_at advance accept thousandths Rating.expected_score Rating.update_elo
    Rating.calculate_elo loser_id write_ratings rate_pair rate_teams joined_users members_of
    bulk_create rate_winner rate_loser save_user_elo save_team_elo create_team_history save_match
    publish_event ◌+ℤ◌ ◌-ℤ◌ ◌*ℤ◌
alternated_players = refl

alternated_teams : count_where (λ h. h.match_id == 31) alternated.world.team_elo_history ≡ 2
unfolding run happen advance_at advance accept thousandths Rating.expected_score Rating.update_elo
    Rating.calculate_elo loser_id write_ratings rate_pair rate_teams joined_users members_of
    bulk_create rate_winner rate_loser save_user_elo save_team_elo create_team_history save_match
    publish_event ◌+ℤ◌ ◌-ℤ◌ ◌*ℤ◌
alternated_teams = refl

abbrev reds_win : ReportData
reds_win = record {
  winner_id = some (pos 11);
  score_team_a = some (pos 3);
  score_team_b = some (pos 1);
}

-- Bob reports the final as won by the Reds. Before his report reads the match, Ann, an admin, has
-- it won by the Blues; the two rows are saved in the other order.
abbrev crossed_winners : List (Happening plain setting)
crossed_winners =
    Happening.asked (authenticated bob) 31 reds_win
    ∷ Happening.asked (authenticated ann) 31 (record {
      winner_id = some (pos 12);
      score_team_a = some (pos 0);
      score_team_b = some (pos 2);
    })
    ∷ map Happening.continued (1 ∷ 0 ∷ 0 ∷ 1 ∷ [])

abbrev crossed : System
crossed = run plain setting crossed_winners (record { world = rated; reports = [] })

run-AllWinnersPlay_example : AllWinnersPlay crossed.world
run-AllWinnersPlay_example =
    run-AllWinnersPlay plain setting crossed_winners rated (tt, (tt, (tt, (tt, (tt, (tt, tt))))))
      winners_play

-- The row that is saved last is the one that stays.
crossed_winner : map (λ m. m.winner_team_id) crossed.world.matches ≡ some 12 ∷ some 12 ∷ []
unfolding run happen view_report advance_at advance accept validate_report has_permission
    match_permissions save_match
crossed_winner = refl

run-both_come_example :
    run plain setting
      (both_come plain setting 31 11 (pos 3) (pos 1) 12 (pos 0) (pos 2))
      (record { world = platform; reports = [] })
    ≡ record {
      world = platform;
      reports =
          saving (reported final_ 11 (pos 3) (pos 1) 7)
          ∷ saving (reported final_ 12 (pos 0) (pos 2) 7)
          ∷ [];
    }
run-both_come_example =
    (run-both_come plain setting 31 11 12 (pos 3) (pos 1) (pos 0) (pos 2) platform final_ refl
      refl).1

-- Two calls for two matches of the same teams; each asks for the row that the other team has.
abbrev crossing : List LockEvent
crossing = began 12 11 ∷ began 11 12 ∷ turned 0 ∷ turned 1 ∷ []

run_locks-no_deadlock_example :
    (is : List ℕ) × (run_locks (map turned is) (run_locks crossing []) ≡ [])
run_locks-no_deadlock_example = (run_locks-no_deadlock crossing).1
