-- ===== src/Teams/Service.antt =====
-- `update_elo` and `_loser_id` of django-api/app/apps/teams/services.py, without interruption. The row
-- locks of `select_for_update` are in Concurrency/Locks.antt.
use tournament_platform_sdd.Base.{
  ℕ, ℤ, Bool, false, ◌==◌, ◌||◌, if◌then◌else◌, none, some, List, any, filter,
}
use tournament_platform_sdd.Exec.{
  Exec, pure, lift, gets, or_raise, atomic, ◌>>=◌, ◌>>◌, type_error, key_error,
}
use tournament_platform_sdd.Models.{World, Match, Team}
use tournament_platform_sdd.Models.Tables.{find_team, save_team_elo, create_team_history}
use tournament_platform_sdd.Floats.{PyFloat}
use tournament_platform_sdd.Rating.{k_factor, calculate_elo}

-- `winner_team_id == team_id`
abbrev pub is_winner : Match → ℕ → Bool
is_winner m team = elim m.winner_team_id [ none ↦ false | some k ↦ k == team ]

unfoldable pub loser_id : Match → ℕ
loser_id m = if is_winner m m.team_b_id then m.team_a_id else m.team_b_id

-- `EloHistory.objects.filter(match_id=match.pk).exists()`
abbrev pub is_rated : ℕ → World → Bool
is_rated match_id w = any (λ h. h.match_id == match_id) w.team_elo_history

-- The rows of both teams, by `pk__in=team_ids`.
abbrev pub fetch_teams : ℕ → ℕ → World → List Team
fetch_teams winner loser w = filter (λ t. t.id == winner || t.id == loser) w.teams

-- The new ratings of both teams, and a row of history for each.
unfoldable pub write_ratings : ℕ → Team → Team → ℤ × ℤ → Exec World (Unit {0})
write_ratings match_id winner loser (new_winner_elo, new_loser_elo) = do
  save_team_elo winner.id new_winner_elo
  save_team_elo loser.id new_loser_elo
  create_team_history winner.id match_id winner.elo new_winner_elo
  create_team_history loser.id match_id loser.elo new_loser_elo

module _ (fl : PyFloat) where
  -- The part of `update_elo` below its early return, in the ids of the match and of both teams.
  unfoldable pub rate_pair : ℕ → ℕ → ℕ → Exec World (Unit {0})
  rate_pair match_id winner_id loser_id = do
    teams ← gets (fetch_teams winner_id loser_id)
    winner ← or_raise (find_team winner_id teams) key_error
    loser ← or_raise (find_team loser_id teams) key_error
    ratings ← lift (calculate_elo fl winner.elo loser.elo k_factor)
    write_ratings match_id winner loser ratings

  -- `sorted` refuses to compare `None` with an id.
  unfoldable pub rate_teams : Match → Exec World (Unit {0})
  rate_teams m = do
    winner_id ← or_raise m.winner_team_id type_error
    rate_pair m.id winner_id (loser_id m)

  unfoldable pub update_elo : Match → Exec World (Unit {0})
  update_elo m = atomic do rated ← gets (is_rated m.id); if rated then pure tt else rate_teams m
