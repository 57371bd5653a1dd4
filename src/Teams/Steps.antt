-- ===== src/Teams/Steps.antt =====
-- What the writes of `update_elo` keep, `update_elo` keeps.
use tournament_platform_sdd.Base.{ℕ, ℤ}
use tournament_platform_sdd.Exec.Rules.{Keeps, keeps_rules}
use tournament_platform_sdd.Models.{World, Match, Team}
use tournament_platform_sdd.Models.Tables.{save_team_elo, create_team_history}
use tournament_platform_sdd.Floats.{PyFloat}
use tournament_platform_sdd.Teams.Service.{write_ratings, rate_pair, rate_teams, update_elo}

module _ {P : World → Type 0} (saved : (k : ℕ) (elo : ℤ) → Keeps P (save_team_elo k elo))
    (created : (team match_id : ℕ) (before after : ℤ)
      → Keeps P (create_team_history team match_id before after)) where
  write_ratings-Keeps :
      (match_id : ℕ) (winner loser : Team) (ratings : ℤ × ℤ)
      → Keeps P (write_ratings match_id winner loser ratings)
  unfolding write_ratings
  write_ratings-Keeps match_id winner loser (w', l') = search (keeps_rules, saved, created) depth 10

  module _ (fl : PyFloat) where
    rate_pair-Keeps :
        (match_id winner_id loser_id : ℕ) → Keeps P (rate_pair fl match_id winner_id loser_id)
    unfolding rate_pair
    rate_pair-Keeps match_id winner_id loser_id = search (keeps_rules, write_ratings-Keeps) depth 10

    pub rate_teams-Keeps : (m : Match) → Keeps P (rate_teams fl m)
    unfolding rate_teams
    rate_teams-Keeps m = search (keeps_rules, rate_pair-Keeps)

    pub update_elo-Keeps : (m : Match) → Keeps P (update_elo fl m)
    unfolding update_elo
    update_elo-Keeps m = search (keeps_rules, rate_teams-Keeps)
