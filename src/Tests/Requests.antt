-- ===== src/Tests/Requests.antt =====
-- Examples for the reporting of results and for the request handlers.
use tournament_platform_sdd.Base.{
  ℤ, ◌⊎◌, inl, ap, arith, ℕ, pos, ◌≡◌, refl, true, false, some, none, [], ◌∷◌, List, ◌+ℤ◌, ◌-ℤ◌,
  ◌*ℤ◌, String, filter, count_where, str_eq,
}
use tournament_platform_sdd.Exec.{Error, ok, err}
use tournament_platform_sdd.Models.{Format, Match, MatchStatus}
use tournament_platform_sdd.Models.Tables.{
  find_match, save_user_elo, save_team_elo, create_team_history, save_match,
}
use tournament_platform_sdd.Floats.Thousandths.{thousandths}
use tournament_platform_sdd.Events.{publish_event}
use tournament_platform_sdd.Events.Consumer.{Message}
use tournament_platform_sdd.Rating
use tournament_platform_sdd.SqlQueries.{
  record_match_result, result_world, record_match_result_atomic,
}
use tournament_platform_sdd.Rating.{elo_new, expected_score, calculate_elo}
use tournament_platform_sdd.Teams.Service
use tournament_platform_sdd.Teams.Service.{loser_id, write_ratings, rate_pair, rate_teams}
use tournament_platform_sdd.Tournaments.UserRating.{
  joined_users, members_of, bulk_create, for_members, rate_winner, rate_loser, update_team_elo,
}
use tournament_platform_sdd.Tournaments.MatchService.{match_payload, record_result, report_result}
use tournament_platform_sdd.Tournaments.Report.{report_result_stored}
use tournament_platform_sdd.Consumers.Pipeline.{ranking, notification, log, IsRatedAs, consumed}
use tournament_platform_sdd.Consumers.Pipeline.Effects.{report_result-consumed}
use tournament_platform_sdd.Base.{any, ◌==◌}
use tournament_platform_sdd.Views.Access.{
  authenticated, is_known_user, has_permission, match_permissions,
}
use tournament_platform_sdd.Views.Matches.{
  ReportData, validate_report, match_row, report_valid, report, dispatch_report,
}
use tournament_platform_sdd.Views.MatchTable.{dispatch_report_safe, IsSafeMatch}
use tournament_platform_sdd.Views.Answers.{report_answers}
use tournament_platform_sdd.Views.Creation.{create_outcomes, draft_of}
use tournament_platform_sdd.Views.Tournaments.{TournamentData, create, get_queryset}
use tournament_platform_sdd.Views.Visible.{get_queryset_visible}
use tournament_platform_sdd.Views.Jwt.{
  AuthReply, replied, forward, token_of, split_space, identify, validate_token, call,
}
use tournament_platform_sdd.Views.Trust.{IsVouched, call_trust}
use tournament_platform_sdd.Tests.Fixtures.{ann, bob, final_, opener, platform, plain, setting}

abbrev played : Match
played = record final_ {
  status = MatchStatus.finished;
  winner_team_id = some 11;
  score_a = pos 3;
  score_b = pos 1;
  played_at = some 7;
}

final_reported : (report_result setting 31 11 (pos 3) (pos 1) false platform).0 ≡ ok played
unfolding thousandths Rating.expected_score Rating.update_elo Rating.calculate_elo loser_id
    write_ratings rate_pair rate_teams Service.update_elo joined_users members_of bulk_create
    for_members rate_winner rate_loser update_team_elo record_result report_result save_user_elo
    save_team_elo create_team_history save_match publish_event ◌+ℤ◌ ◌-ℤ◌ ◌*ℤ◌
final_reported = refl

report_result_stored_example :
    find_match 31 (report_result setting 31 11 (pos 3) (pos 1) false platform).1.matches
    ≡ some played
report_result_stored_example =
    (report_result_stored setting 31 11 (pos 3) (pos 1) false platform final_ played refl
      final_reported).1

abbrev event : Message plain
event = record { topic = "match.finished"; value = match_payload setting played }

-- The teams' table after the report.
reported_teams :
    let s = (report_result setting 31 11 (pos 3) (pos 1) false platform).1 in
    (any (λ t. t.id == 11) s.teams ≡ true) × (any (λ t. t.id == 12) s.teams ≡ true)
unfolding thousandths Rating.expected_score Rating.update_elo Rating.calculate_elo loser_id
    write_ratings rate_pair rate_teams Service.update_elo joined_users members_of bulk_create
    for_members rate_winner rate_loser update_team_elo record_result report_result save_user_elo
    save_team_elo create_team_history save_match publish_event ◌+ℤ◌ ◌-ℤ◌ ◌*ℤ◌
reported_teams = (refl, refl)

report_result-consumed_example :
    let s = (report_result setting 31 11 (pos 3) (pos 1) false platform).1 in
    IsRatedAs s
      (consumed plain thousandths (log ∷ notification ∷ ranking ∷ notification ∷ []) event s)
report_result-consumed_example =
    (report_result-consumed plain thousandths setting 31 11 (pos 3) (pos 1) false platform final_
      played event (log ∷ notification ∷ ranking ∷ notification ∷ []) refl final_reported refl
      reported_teams.0 reported_teams.1).0

abbrev request : ReportData
request = record {
  winner_id = some (pos 11);
  score_team_a = some (pos 3);
  score_team_b = some (pos 1);
}

request_valid :
    validate_report opener request
    ≡ some (record { winner_id = pos 11; score_team_a = pos 3; score_team_b = pos 1 })
unfolding validate_report
request_valid = refl

report_answers_example : dispatch_report setting (authenticated bob) 31 request platform ≡ (
  ok (record { status = 201; body = match_row played }),
  (report_result setting 31 11 (pos 3) (pos 1) false platform).1,
)
report_answers_example =
    ((((report_answers setting bob 31 request platform).2 final_ refl).1 11 3 1
        (record { names = refl; plays = inl refl; first = refl; second = refl })).1)
      played final_reported

final_answered :
    (dispatch_report setting (authenticated bob) 31 request platform).0
    ≡ ok (record { status = 201; body = match_row played })
unfolding dispatch_report has_permission match_permissions report report_valid validate_report
final_answered = rw final_reported refl

dispatch_report_safe_example :
    (is_known_user (authenticated bob) ≡ true)
    × IsSafeMatch setting 31 played
        (dispatch_report setting (authenticated bob) 31 request platform).1
dispatch_report_safe_example =
    dispatch_report_safe setting (authenticated bob) 31 request platform 201 played final_answered

get_queryset_visible_example :
    count_where (λ t. true) (get_queryset (authenticated ann) platform) ≡ 2
get_queryset_visible_example =
    (get_queryset_visible (authenticated ann) platform).1 (inl refl) (λ t. true)

-- The auth service knows one token, of bob.
abbrev pub auth_service : List ℕ → AuthReply
auth_service [] = replied 401 (some (record { valid = false; email = none }))
auth_service (c ∷ cs) = replied 200 (some (record { valid = true; email = some "bob" }))

abbrev pub header : List ℕ
header = b'B' ∷ b'e' ∷ b'a' ∷ b'r' ∷ b'e' ∷ b'r' ∷ b' ' ∷ b'x' ∷ []

bob_passes : call auth_service str_eq header platform ≡ ok (forward (authenticated bob))
unfolding call token_of split_space validate_token identify
bob_passes = refl

call_trust_example :
    (token : List ℕ) × (email : String) × (token_of header ≡ some token)
    × IsVouched auth_service str_eq token email
    × (filter (λ u. str_eq u.email email) platform.users ≡ bob ∷ [])
call_trust_example = (call_trust auth_service str_eq header platform).1 bob bob_passes

record_match_result_atomic_example :
    let (r, w') = record_match_result thousandths 31 11 1 2 (pos 1000) (pos 1000) platform in
    ((r ≡ ok tt)
      × ((a' b' : ℤ) × (elo_new thousandths (pos 1000) (pos 1000) true ≡ ok a')
          × (elo_new thousandths (pos 1000) (pos 1000) false ≡ ok b')
          × (w' ≡ result_world platform 31 11 1 2 a' b')))
    ⊎ ((e : Error) × (r ≡ err e) × (w' ≡ platform))
record_match_result_atomic_example =
    record_match_result_atomic thousandths 31 11 1 2 (pos 1000) (pos 1000) platform

-- A tournament of one day.
abbrev one_day : TournamentData
one_day = record {
  name = "autumn";
  format = Format.round_robin;
  max_teams = 8;
  start_date = 60;
  end_date = 60;
}

create_outcomes_example :
    (create setting ann one_day platform).0 ≡ ok (draft_of platform.next_id ann one_day)
create_outcomes_example =
    ap (λ x. x.0)
      (((create_outcomes setting ann one_day platform).1 (omega arith)).1 (omega arith)
        (omega arith))
