-- ===== src/Views/Matches.antt =====
-- `MatchViewSet.report` of django-api/app/apps/tournaments/views.py, `MatchReportSerializer` of
-- serializers/input.py, and `Match.clean` of models.py.
use tournament_platform_sdd.Base.{
  ℕ, ℤ, pos, pos_part, Bool, false, ◌==ℤ◌, ◌||◌, ◌==◌, leb_ℤ, if◌then◌else◌, Option, none, some,
}
use tournament_platform_sdd.Exec.{Exec, Result, ok, err, validation_error, match_already_finished}
use tournament_platform_sdd.Models.{World, Match, is_finished}
use tournament_platform_sdd.Models.Tables.{find_match}
use tournament_platform_sdd.Runtime.{Runtime}
use tournament_platform_sdd.Tournaments.MatchService.{report_result}
use tournament_platform_sdd.Views.Access.{
  RequestUser, Action, is_admin, has_permission, match_permissions,
}

-- The fields of the request as `IntegerField` reads them; `none` where a field is missing or holds
-- no integer.
pub record ReportData : Type 0 where
  pub winner_id : Option ℤ
  pub score_team_a : Option ℤ
  pub score_team_b : Option ℤ

-- `serializer.validated_data`
pub record ValidReport : Type 0 where
  pub winner_id : ℤ
  pub score_team_a : ℤ
  pub score_team_b : ℤ

-- `validate_winner_id`: the value is one of the match's teams.
abbrev pub plays_in : Match → ℤ → Bool
plays_in m value = value ==ℤ pos m.team_a_id || value ==ℤ pos m.team_b_id

-- `IntegerField(min_value=0)`
abbrev pub score_of : Option ℤ → Option ℤ
score_of none = none
score_of (some n) = if leb_ℤ (pos 0) n then some n else none

abbrev winner_of : Match → Option ℤ → Option ℤ
winner_of m none = none
winner_of m (some value) = if plays_in m value then some value else none

abbrev together : Option ℤ → Option ℤ → Option ℤ → Option ValidReport
together (some winner) (some a) (some b) =
    some (record { winner_id = winner; score_team_a = a; score_team_b = b })
together _ _ _ = none

-- `is_valid` and `validated_data`
unfoldable pub validate_report : Match → ReportData → Option ValidReport
validate_report m request =
    together (winner_of m request.winner_id) (score_of request.score_team_a)
      (score_of request.score_team_b)

pub data Body : Type 0 where
  empty serializer_errors already_reported not_permitted : Body
  match_row : Match → Body

pub record Response : Type 0 where
  pub status : ℕ
  pub body : Body

-- `except MatchAlreadyFinished`; any other exception goes on.
abbrev pub respond : ℕ → Result Match × World → Result Response × World
respond status (ok m, w) = (ok (record { status = status; body = match_row m }), w)
respond status (err match_already_finished, w) =
    (ok (record { status = 409; body = already_reported }), w)
respond status (err e, w) = (err e, w)

abbrev pub is_team : Option ℕ → ℕ → Bool
is_team none k = false
is_team (some j) k = j == k

-- `Match.clean`
unfoldable pub clean : Match → Result (Unit {0})
clean m =
    if is_finished m.status
    then (if is_team m.winner_team_id m.team_a_id || is_team m.winner_team_id m.team_b_id
        then ok tt
        else err validation_error)
    else ok tt

module _ (rt : Runtime) where
  -- The call of the service for a valid report, and its response.
  unfoldable pub report_valid : RequestUser → Match → ValidReport → Exec World Response
  report_valid user m vd w = respond (if is_finished m.status then 200 else 201) (
      report_result rt m.id (pos_part vd.winner_id) vd.score_team_a vd.score_team_b (is_admin user)
        w)

  unfoldable pub report : RequestUser → ℕ → ReportData → Exec World Response
  report user pk request w = elim (find_match pk w.matches) [
    | none ↦ (ok (record { status = 404; body = empty }), w)
    | some m ↦ elim (validate_report m request) [
      | none ↦ (ok (record { status = 400; body = serializer_errors }), w)
      | some vd ↦ report_valid user m vd w
    ]
  ]

  -- The framework's answer to a request without a user is 401, since the authentication class
  -- names a `WWW-Authenticate` header.
  unfoldable pub dispatch_report : RequestUser → ℕ → ReportData → Exec World Response
  dispatch_report user pk request w =
      if has_permission (match_permissions Action.report) user
      then report user pk request w
      else (ok (record { status = 401; body = not_permitted }), w)
