-- ===== src/Platform/Outside.antt =====
-- The writes of the platform that touch neither matches nor teams, nor the history of the teams'
-- ratings, nor the notifications: what is said of these tables alone, they keep.
use tournament_platform_sdd.Base.{ℕ, ℤ, ◌+◌, ◌≤◌, ◌≡◌, [], ◌∷◌, List, String, arith}
use tournament_platform_sdd.Exec.Rules.{Keeps}
use tournament_platform_sdd.Json.{Json, Wire}
use tournament_platform_sdd.Models.{World, User, Match, UserEloHistory}
use tournament_platform_sdd.Models.Tables.{save_user_elo, save_match}
use tournament_platform_sdd.Runtime.{Runtime}
use tournament_platform_sdd.Events.{publish_event}
use tournament_platform_sdd.Teams.Service.{update_elo}
use tournament_platform_sdd.Tournaments.UserRating.{bulk_create}
use tournament_platform_sdd.Tournaments.TournamentService.{start, save_tournament_status}
use tournament_platform_sdd.Consumers.Handlers.{notify_team, create_event_log-Keeps, logged_row}
use tournament_platform_sdd.Views.MatchCreation.{MatchData, create_match}
use tournament_platform_sdd.Views.Tournaments.{TournamentData, insert_tournament}
use tournament_platform_sdd.Views.Teams.{insert_team, insert_user}
use tournament_platform_sdd.Platform.Steps.{WinnerPlays, IsKeptByWrites, KeptBySave}

-- What every save of a match keeps.
pub always_saved :
    {P : World → Type 0} → ((m : Match) → WinnerPlays m → Keeps P (save_match m)) → KeptBySave P
always_saved saved m old w plays found same h = (saved m plays).at w h

-- The state `w` has these tables of `s`, and no id given back.
pub record IsSame (s w : World) : Type 0 where
  pub matches : w.matches ≡ s.matches
  pub teams : w.teams ≡ s.teams
  pub history : w.team_elo_history ≡ s.team_elo_history
  pub notifications : w.notification_log ≡ s.notification_log
  pub ids : s.next_id ≤ w.next_id

module _ {P : World → Type 0} (respects : (s w : World) → IsSame s w → P s → P w) where
  user_saved : (k : ℕ) (elo : ℤ) → Keeps P (save_user_elo k elo)
  unfolding save_user_elo
  user_saved k elo = record { at = λ w. respects w (save_user_elo k elo w).1 (ground arith) }

  history_made : (rows : List UserEloHistory) → Keeps P (bulk_create rows)
  unfolding bulk_create
  history_made [] = record { at = λ w h. h }
  history_made (row ∷ rows) = record {
    at = λ w. respects w (bulk_create (row ∷ rows) w).1 (ground arith);
  }

  pub event_published :
      (rt : Runtime) (topic : String) (payload : Json) → Keeps P (publish_event rt topic payload)
  unfolding publish_event
  event_published rt topic payload = record {
    at = λ w. respects w (publish_event rt topic payload w).1 (ground arith);
  }

  tournament_made : (u : User) (request : TournamentData) → Keeps P (insert_tournament u request)
  unfolding insert_tournament
  tournament_made u request = record {
    at = λ w. respects w (insert_tournament u request w).1 (ground arith);
  }

  tournament_started : (k : ℕ) → Keeps P (start k)
  unfolding start save_tournament_status
  tournament_started k = record { at = λ w. respects w (start k w).1 (ground arith) }

  user_made : (u : User) → Keeps P (insert_user u)
  unfolding insert_user
  user_made u = record { at = λ w. respects w (insert_user u w).1 (ground arith) }

  -- A property of these tables is kept by all writes if it is kept by those that touch them.
  pub kept_by_writes :
      (wire : Wire) (rt : Runtime)
      → ((m : Match) → Keeps P (update_elo rt.floats m))
      → KeptBySave P
      → ((request : MatchData) → Keeps P (create_match request))
      → ((match_id team_id : ℕ) → Keeps P (notify_team match_id team_id))
      → ((u : User) (name : String) → Keeps P (insert_team u name))
      → IsKeptByWrites wire rt P
  kept_by_writes wire rt rated saved made notified inserted = record {
    user_saved = user_saved;
    history_made = history_made;
    teams_rated = rated;
    match_saved = saved;
    match_made = made;
    event_published = λ topic payload _. event_published rt topic payload;
    team_notified = notified;
    event_logged = λ topic payload.
        create_event_log-Keeps wire topic payload
          (λ w. respects w (logged_row wire topic payload w) (ground arith));
    tournament_made = tournament_made;
    tournament_started = tournament_started;
    team_made = inserted;
    user_made = user_made;
    members_edited = λ members registrations. record {
      at = λ w.
          respects w (record w { team_members = members; tournament_teams = registrations })
            (ground arith);
    };
    time_passed =
        λ n. record { at = λ w. respects w (record w { now = w.now + n }) (ground arith) };
  }
