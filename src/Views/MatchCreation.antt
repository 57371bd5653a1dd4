-- ===== src/Views/MatchCreation.antt =====
-- `POST /api/matches/`: what `MatchViewSet` inherits from the framework, `create` by its serializer
-- `MatchResponseSerializer` (apps/tournaments/serializers/output.py of django-api/app), whose
-- fields but the id are all read from the request. `get_permissions` lets everyone call it.
use tournament_platform_sdd.Base.{
  ℕ, ℤ, ◌+◌, ◌==◌, ◌&&◌, ◌||◌, Bool, true, if◌then◌else◌, Option, none, some, [], ◌∷◌, ◌++◌, any,
}
use tournament_platform_sdd.Exec.{Exec, ok, err, validation_error, permission_denied}
use tournament_platform_sdd.Models.{World, Match, MatchStatus}
use tournament_platform_sdd.Models.Tables.{fits_int4}
use tournament_platform_sdd.Views.Access.{RequestUser, Action, has_permission, match_permissions}

-- The fields of the request, as the framework reads them; those with a default in the model hold
-- it where the request leaves them out.
pub record MatchData : Type 0 where
  pub tournament_id : ℕ
  pub team_a_id : ℕ
  pub team_b_id : ℕ
  pub winner_team_id : Option ℕ
  pub score_a : ℤ
  pub score_b : ℤ
  pub status : MatchStatus
  pub played_at : Option ℕ

-- `MatchResponseSerializer.validate`, where there is no instance yet.
abbrev pub winner_plays : Option ℕ → ℕ → ℕ → Bool
winner_plays none team_a team_b = true
winner_plays (some winner) team_a team_b = winner == team_a || winner == team_b

-- The framework's checks of the fields: every id names a row, and the scores fit their columns.
abbrev fields_exist : MatchData → World → Bool
fields_exist request w =
    any (λ t. t.id == request.tournament_id) w.tournaments
    && any (λ t. t.id == request.team_a_id) w.teams
    && any (λ t. t.id == request.team_b_id) w.teams
    && fits_int4 request.score_a
    && fits_int4 request.score_b

unfoldable pub match_valid : MatchData → World → Bool
match_valid request w =
    fields_exist request w
    && winner_plays request.winner_team_id request.team_a_id request.team_b_id

abbrev pub new_match : ℕ → MatchData → Match
new_match id request = record {
  id = id;
  tournament_id = request.tournament_id;
  team_a_id = request.team_a_id;
  team_b_id = request.team_b_id;
  winner_team_id = request.winner_team_id;
  score_a = request.score_a;
  score_b = request.score_b;
  status = request.status;
  played_at = request.played_at;
}

unfoldable pub create_match : MatchData → Exec World Match
create_match request w =
    if match_valid request w
    then (
      ok (new_match w.next_id request),
      record w { matches = w.matches ++ new_match w.next_id request ∷ []; next_id = w.next_id + 1 },
    )
    else (err validation_error, w)

unfoldable pub dispatch_create_match : RequestUser → MatchData → Exec World Match
dispatch_create_match user request w =
    if has_permission (match_permissions Action.create) user
    then create_match request w
    else (err permission_denied, w)
