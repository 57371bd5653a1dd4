-- ===== src/Tournaments/Frames.antt =====
-- What the rating steps of a match leave alone: the table of matches and the table of members.
use tournament_platform_sdd.Base.{ℕ, ℤ, ◌≡◌, List, [], ◌∷◌, String, arith}
use tournament_platform_sdd.Exec.Rules.{Keeps}
use tournament_platform_sdd.Json.{Json}
use tournament_platform_sdd.Models.{World, Match, TeamMember, UserEloHistory}
use tournament_platform_sdd.Models.Tables.{save_user_elo, save_team_elo, create_team_history}
use tournament_platform_sdd.Floats.{PyFloat}
use tournament_platform_sdd.Runtime.{Runtime}
use tournament_platform_sdd.Events.{publish_event}
use tournament_platform_sdd.Teams.Service.{update_elo}
use tournament_platform_sdd.Teams.Steps.{update_elo-Keeps}
use tournament_platform_sdd.Tournaments.UserRating.{bulk_create, update_team_elo}
use tournament_platform_sdd.Tournaments.Rounds.{update_team_elo-Keeps}

-- The part of the state that the rating steps do not write.
pub record IsFramed (ms : List Match) (members : List TeamMember) (w : World) : Type 0 where
  pub same_matches : w.matches ≡ ms
  pub same_members : w.team_members ≡ members

module _ (ms : List Match) (members : List TeamMember) where
  save_user_elo-Keeps : (k : ℕ) (elo : ℤ) → Keeps (IsFramed ms members) (save_user_elo k elo)
  unfolding save_user_elo
  save_user_elo-Keeps k elo = record { at = λ w h. ground arith }

  save_team_elo-Keeps : (k : ℕ) (elo : ℤ) → Keeps (IsFramed ms members) (save_team_elo k elo)
  unfolding save_team_elo
  save_team_elo-Keeps k elo = record { at = λ w h. ground arith }

  create_team_history-Keeps :
      (team match_id : ℕ) (before after : ℤ)
      → Keeps (IsFramed ms members) (create_team_history team match_id before after)
  unfolding create_team_history
  create_team_history-Keeps team match_id before after = record { at = λ w h. ground arith }

  bulk_create-Keeps : (rows : List UserEloHistory) → Keeps (IsFramed ms members) (bulk_create rows)
  unfolding bulk_create
  bulk_create-Keeps [] = record { at = λ w h. h }
  bulk_create-Keeps (row ∷ rows) = record { at = λ w h. ground arith }

  pub publish_event-Keeps :
      (rt : Runtime) (topic : String) (payload : Json)
      → Keeps (IsFramed ms members) (publish_event rt topic payload)
  unfolding publish_event
  publish_event-Keeps rt topic payload = record { at = λ w h. ground arith }

  module _ (fl : PyFloat) where
    pub update_elo-IsFramed : (m : Match) → Keeps (IsFramed ms members) (update_elo fl m)
    update_elo-IsFramed = update_elo-Keeps save_team_elo-Keeps create_team_history-Keeps fl

    pub update_team_elo-IsFramed : (m : Match) → Keeps (IsFramed ms members) (update_team_elo fl m)
    update_team_elo-IsFramed = update_team_elo-Keeps save_user_elo-Keeps bulk_create-Keeps fl
