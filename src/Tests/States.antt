-- ===== src/Tests/States.antt =====
-- Examples for the platform as a whole and for the queries and views that read its tables.
use tournament_platform_sdd.Base.{
  ℕ, pos, ◌+ℤ◌, ◌-ℤ◌, ◌≡◌, refl, sym, ◌∙◌, ap, false, Bool-cases, inl, inr, ◌==◌, Option, none,
  some, List, [], ◌∷◌, All, count_where, arith,
}
use tournament_platform_sdd.Models.{World, User, Role, Team}
use tournament_platform_sdd.Models.Tables.{find_team}
use tournament_platform_sdd.Platform.{Request, perform, Reach}
use tournament_platform_sdd.Platform.Winners.{AllWinnersPlay}
use tournament_platform_sdd.Platform.Once.{HasNoTwice}
use tournament_platform_sdd.Platform.Balance.{IsLedger, ledger_elo, some-injective}
use tournament_platform_sdd.Platform.Final.{rows_of, Reach-rows_of}
use tournament_platform_sdd.SqlQueries.Queries.{is_win, get_team_history}
use tournament_platform_sdd.SqlQueries.History.{HasTeams, get_team_history_count}
use tournament_platform_sdd.Views.Access.{RequestUser, anonymous, authenticated}
use tournament_platform_sdd.Views.Authentication.{Framework}
use tournament_platform_sdd.Views.Stack.{serve, serve_refused}
use tournament_platform_sdd.Base.{any, true}
use tournament_platform_sdd.Views.Rankings.{tournament_ranking}
use tournament_platform_sdd.Views.TournamentRanking.{row_of, tournament_ranking_told}
use tournament_platform_sdd.Tests.Requests.{auth_service, header}
use tournament_platform_sdd.Base.{str_eq}
use tournament_platform_sdd.Views.Matches.{ReportData}
use tournament_platform_sdd.Events.Contract.{AllEvents}
use tournament_platform_sdd.Platform.Topics.{Reach-AllEvents}
use tournament_platform_sdd.Tests.Fixtures.{ann, bob, reds, blues, platform, rated, plain, setting}

-- Bob reports the final, and then the consumers handle nothing yet.
abbrev report_final : Request plain setting
report_final =
    Request.report_match (authenticated bob) 31 (record {
      winner_id = some (pos 11);
      score_team_a = some (pos 3);
      score_team_b = some (pos 1);
    })

abbrev later : World
later = perform plain setting report_final rated

abbrev reported : Reach plain setting rated later
reported = Reach.next Reach.here report_final

pub winners_play : AllWinnersPlay rated
winners_play = (refl, (refl, tt))

-- The report is published; the broker had nothing before.
Reach-AllEvents_example : AllEvents setting later
Reach-AllEvents_example = Reach-AllEvents plain setting reported (tt, tt)

pub no_twice : HasNoTwice rated
no_twice = record { ratings = λ a b. ground arith; notifications = λ a b. omega arith }

abbrev rated_reds : Team
rated_reds = record reds { elo = pos 984 }

abbrev rated_blues : Team
rated_blues = record blues { elo = pos 1016 }

books_rated :
    (k : ℕ) {t : Team}
    → find_team k rated.teams ≡ some t
    → t.elo ≡ ledger_elo k rated.team_elo_history
unfolding ◌+ℤ◌ ◌-ℤ◌
books_rated k {t} found = elim (Bool-cases (11 == k)) [
  | inl red ↦
      let not_blue : (12 == k) ≡ false = ground arith in
      let row : find_team k rated.teams ≡ some rated_reds = rw red refl in
      rw (red, not_blue) (ap (λ x. x.elo) (sym (some-injective (sym row ∙ found))))
  | inr not_red ↦ elim (Bool-cases (12 == k)) [
    | inl blue ↦
        let row : find_team k rated.teams ≡ some rated_blues = rw (not_red, blue) refl in
        rw (not_red, blue) (ap (λ x. x.elo) (sym (some-injective (sym row ∙ found))))
    | inr not_blue ↦
        let row : find_team k rated.teams ≡ none = rw (not_red, not_blue) refl in cc (row, found)
  ]
]

pub books : IsLedger rated
unfolding ◌+ℤ◌ ◌-ℤ◌
books = record {
  rated = λ k {t} found. books_rated k found;
  unissued = λ k le. ground arith;
  unrated = λ k le. ground arith;
}

-- Ann, an admin, writes another result over the match that is rated.
abbrev overwrite_opener : Request plain setting
overwrite_opener =
    Request.report_match (authenticated ann) 32 (record {
      winner_id = some (pos 11);
      score_team_a = some (pos 4);
      score_team_b = some (pos 2);
    })

Reach-rows_of_example :
    rows_of 32 (perform plain setting overwrite_opener rated).team_elo_history
    ≡ rows_of 32 rated.team_elo_history
Reach-rows_of_example = Reach-rows_of plain setting 32 (Reach.next Reach.here overwrite_opener) refl

have_teams : All (HasTeams platform.teams) platform.matches
have_teams = (
  record { team_a = reds; team_b = blues; row_a = refl; row_b = refl },
  (record { team_a = reds; team_b = blues; row_a = refl; row_b = refl }, tt),
)

get_team_history_count_example : count_where is_win (get_team_history 12 platform) ≡ 1
get_team_history_count_example = (get_team_history_count 12 platform have_teams winners_play).1

tournament_ranking_told_example : any (row_of 11) (tournament_ranking 21 rated) ≡ true
tournament_ranking_told_example =
    (tournament_ranking_told 21 rated (refl, (refl, tt))).2 rated_reds refl
      (inr (inl (refl, inr (inl (refl, refl)))))

-- An organizer asks for the players.
abbrev host : User
host = record bob { role = Role.organizer }

-- The user whom the first class that authenticates names.
abbrev first_user : List (Option User) → RequestUser
first_user [] = anonymous
first_user (none ∷ rest) = first_user rest
first_user (some user ∷ rest) = authenticated user

first_user-no_class :
    (answers : List (Option User)) → All (λ a. a ≡ none) answers → first_user answers ≡ anonymous
first_user-no_class [] h = refl
first_user-no_class (none ∷ rest) h = first_user-no_class rest h.1
first_user-no_class (some user ∷ rest) h = cc (h.0)

abbrev in_order : Framework
in_order = record { request_user = first_user; no_class = first_user-no_class }

abbrev bobs_report : ReportData
bobs_report = record {
  winner_id = some (pos 11);
  score_team_a = some (pos 3);
  score_team_b = some (pos 1);
}

-- Bob has a valid token.
serve_refused_example :
    (serve auth_service str_eq in_order setting header 31 bobs_report platform).1 ≡ platform
serve_refused_example =
    (serve_refused auth_service str_eq in_order setting header 31 bobs_report platform).0
