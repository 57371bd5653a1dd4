-- ===== src/Tournaments/MatchService.antt =====
-- `MatchService.report_result` of django-api/app/apps/tournaments/services.py.
use tournament_platform_sdd.Base.{ℕ, ℤ, pos, Bool, not, ◌&&◌, Option, none, some}
use tournament_platform_sdd.Exec.{
  Exec, pure, gets, or_raise, raise_if, ◌>>=◌, ◌>>◌, match_not_found, match_already_finished,
}
use tournament_platform_sdd.Json.{Json, num, text, null, obj, end, field}
use tournament_platform_sdd.Models.{World, Match, MatchStatus, is_finished}
use tournament_platform_sdd.Models.Tables.{find_match, save_match}
use tournament_platform_sdd.Runtime.{Runtime}
use tournament_platform_sdd.Events.{publish_event}
use tournament_platform_sdd.Teams.Service.{update_elo}
use tournament_platform_sdd.Tournaments.UserRating.{update_team_elo}

-- The fields that `report_result` writes before `match.save()`.
abbrev pub reported : Match → ℕ → ℤ → ℤ → ℕ → Match
reported m winner_id score_a score_b now = record m {
  winner_team_id = some winner_id;
  score_a = score_a;
  score_b = score_b;
  status = MatchStatus.finished;
  played_at = some now;
}

abbrev id_or_null : Option ℕ → Json
id_or_null none = null
id_or_null (some k) = num (pos k)

module _ (rt : Runtime) where
  abbrev iso_or_null : Option ℕ → Json
  iso_or_null none = null
  iso_or_null (some t) = text (rt.isoformat t)

  -- The payload of the event `match.finished`.
  abbrev pub match_payload : Match → Json
  match_payload m = obj (
      field "match_id" (num (pos m.id)) (
        field "team_a_id" (num (pos m.team_a_id)) (
          field "team_b_id" (num (pos m.team_b_id)) (
            field "winner_id" (id_or_null m.winner_team_id)
              (field "reported_at" (iso_or_null m.played_at) end)))))

  -- From `match.save()` on. No transaction is open around these steps.
  unfoldable pub record_result : Match → Exec World Match
  record_result m = do
    save_match m
    update_team_elo rt.floats m
    update_elo rt.floats m
    publish_event rt "match.finished" (match_payload m)
    pure m

  unfoldable pub report_result : ℕ → ℕ → ℤ → ℤ → Bool → Exec World Match
  report_result match_id winner_id score_a score_b is_admin = do
    found ← gets (λ w. find_match match_id w.matches)
    m ← or_raise found match_not_found
    raise_if (is_finished m.status && not is_admin) match_already_finished
    now ← gets (λ w. w.now)
    record_result (reported m winner_id score_a score_b now)
