-- ===== src/Models.antt =====
-- The tables of the Django models (models.py of apps/users, apps/teams, apps/tournaments and
-- events, under django-api/app), as lists of rows, and the state that the services work on.
mod Rows
pub mod Tables
pub use Rows.*
use tournament_platform_sdd.Base.{ℕ, List, String}
use tournament_platform_sdd.Json.{Json}

-- The database, the clock that `timezone.now()` reads, the next number of the id sequences, and
-- what left the process: the events that the broker took, and the failures that were logged.
pub record World : Type 0 where
  pub users : List User
  pub teams : List Team
  pub team_members : List TeamMember
  pub tournaments : List Tournament
  pub tournament_teams : List TournamentTeam
  pub matches : List Match
  pub user_elo_history : List UserEloHistory
  pub team_elo_history : List TeamEloHistory
  pub event_log : List EventLog
  pub notification_log : List NotificationLog
  pub now : ℕ
  pub next_id : ℕ
  pub published : List (String × Json)
  -- the notifications that were sent, as the ids of the match and the team
  pub notified : List (ℕ × ℕ)
  pub publish_failures : List (String × Json)
