-- ===== src/Platform/Payloads.antt =====
-- The payloads that `report_result` (apps/tournaments/services.py of django-api/app), the view sets'
-- `create` and `UserManager.create_user` publish, against the contracts of their topics.
use tournament_platform_sdd.Base.{ℕ, ℤ, ◌≡◌, refl, true, ◌==◌, ◌||◌}
use tournament_platform_sdd.Json.{subscript}
use tournament_platform_sdd.Models.{User, Team, Tournament, Match}
use tournament_platform_sdd.Runtime.{Runtime}
use tournament_platform_sdd.Events.Contract.{
  IsMatchFinished, IsEvent, match_finished, tournament_created, user_registered, team_created,
}
use tournament_platform_sdd.Tournaments.MatchService.{reported, match_payload}
use tournament_platform_sdd.Views.Tournaments.{tournament_payload}
use tournament_platform_sdd.Views.Teams.{team_payload, user_payload}

module _ (rt : Runtime) where
  reported-IsMatchFinished :
      (m : Match) (winner_id : ℕ) (score_a score_b : ℤ) (now : ℕ)
      → (winner_id == m.team_a_id || winner_id == m.team_b_id) ≡ true
      → IsMatchFinished rt (match_payload rt (reported m winner_id score_a score_b now))
  unfolding subscript
  reported-IsMatchFinished m winner_id score_a score_b now plays = record {
    match_id = m.id;
    team_a_id = m.team_a_id;
    team_b_id = m.team_b_id;
    winner_id = winner_id;
    has_match = refl;
    has_team_a = refl;
    has_team_b = refl;
    has_winner = refl;
    reported_at = (now, refl);
    winner_plays = plays;
  }

  pub reported-IsEvent :
      (m : Match) (winner_id : ℕ) (score_a score_b : ℤ) (now : ℕ)
      → (winner_id == m.team_a_id || winner_id == m.team_b_id) ≡ true
      → IsEvent rt "match.finished" (match_payload rt (reported m winner_id score_a score_b now))
  reported-IsEvent m winner_id score_a score_b now plays =
      match_finished refl (reported-IsMatchFinished m winner_id score_a score_b now plays)

  pub tournament_payload-IsEvent :
      (t : Tournament) → IsEvent rt "tournament.created" (tournament_payload rt t)
  unfolding subscript
  tournament_payload-IsEvent t =
      tournament_created refl (t.id, refl) (t.name, refl) (t.start_date, refl)

  pub team_payload-IsEvent : (t : Team) → IsEvent rt "team.created" (team_payload rt t)
  unfolding subscript
  team_payload-IsEvent t = team_created refl (t.id, refl) (t.name, refl) (t.created_at, refl)

  pub user_payload-IsEvent : (u : User) → IsEvent rt "user.registered" (user_payload rt u)
  unfolding subscript
  user_payload-IsEvent u = user_registered refl (u.id, refl) (u.email, refl) (u.created_at, refl)
