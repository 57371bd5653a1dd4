-- ===== src/Platform.antt =====
-- The platform as a whole: the requests that it serves and the events that its consumers handle, as
-- the steps of one state. What the framework's own pages and commands do (the admin site, the
-- command seed_data, the SQL module) is no step.
pub mod Payloads
pub mod Steps
pub mod Outside
pub mod Once
pub mod Winners
pub mod Balance
pub mod Ledger
pub mod Final
pub mod Topics
use tournament_platform_sdd.Base.{ℕ, ℤ, ◌+◌, Bool, String, List}
use tournament_platform_sdd.Json.{Wire}
use tournament_platform_sdd.Models.{World, Role, TeamMember, TournamentTeam}
use tournament_platform_sdd.Runtime.{Runtime}
use tournament_platform_sdd.Events.Consumer.{Message}
use tournament_platform_sdd.Tournaments.TournamentService.{start}
use tournament_platform_sdd.Consumers.Handlers.{
  rank_match_finished, notify_match_finished, handle_event,
}
use tournament_platform_sdd.Views.Access.{RequestUser}
use tournament_platform_sdd.Views.Matches.{ReportData, dispatch_report}
use tournament_platform_sdd.Views.MatchCreation.{MatchData, dispatch_create_match}
use tournament_platform_sdd.Views.Tournaments.{TournamentData}
use tournament_platform_sdd.Views.Tournaments
use tournament_platform_sdd.Views.Teams.{create_user}
use tournament_platform_sdd.Views.Teams

module _ (wire : Wire) (rt : Runtime) where
  pub data Request : Type 0 where
    report_match : RequestUser → ℕ → ReportData → Request
    create_match : RequestUser → MatchData → Request
    create_tournament : RequestUser → TournamentData → Request
    -- the framework's check of the name, the user and the name
    create_team : (String → World → Bool) → RequestUser → String → Request
    -- the address as it is normalised, the name, the hash of the password, the role, the rating,
    -- and both flags
    register : String → String → String → Role → ℤ → Bool → Bool → Request
    start_tournament : ℕ → Request
    -- one attempt of a consumer at a message
    rank notify log : Message wire → Request
    -- whatever the endpoints of members and registrations do to their tables
    edit_members : List TeamMember → List TournamentTeam → Request
    wait : ℕ → Request

  -- The state after a request, whatever it answers.
  unfoldable pub perform : Request → World → World
  perform (report_match user pk request) w = (dispatch_report rt user pk request w).1
  perform (create_match user request) w = (dispatch_create_match user request w).1
  perform (create_tournament user request) w = (Tournaments.dispatch_create rt user request w).1
  perform (create_team valid_name user name) w = (Teams.dispatch_create rt valid_name user name w).1
  perform (register email username password role elo is_staff is_superuser) w =
      (create_user rt (λ s. s) (λ s. s) email username password role elo is_staff is_superuser w).1
  perform (start_tournament k) w = (start k w).1
  perform (rank msg) w = (rank_match_finished wire rt.floats msg w).1
  perform (notify msg) w = (notify_match_finished wire msg w).1
  perform (log msg) w = (handle_event wire msg w).1
  perform (edit_members members registrations) w = record w {
    team_members = members;
    tournament_teams = registrations;
  }
  perform (wait n) w = record w { now = w.now + n }

  -- The states that the platform can come to from `w`.
  pub data Reach (w : World) : World → Type 0 where
    here : Reach w w
    next : {v : World} → Reach w v → (request : Request) → Reach w (perform request v)
