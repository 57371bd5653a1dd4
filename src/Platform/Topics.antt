-- ===== src/Platform/Topics.antt =====
-- What the platform publishes keeps the contracts of its topics.
use tournament_platform_sdd.Base.{ℕ, ℤ, ◌≡◌, List, String, [], ◌∷◌, All, arith, subst, sym}
use tournament_platform_sdd.Exec.Rules.{Keeps}
use tournament_platform_sdd.Json.{Json, Wire}
use tournament_platform_sdd.Models.{World, User, Match, UserEloHistory}
use tournament_platform_sdd.Models.Tables.{
  save_user_elo, save_match, save_team_elo, create_team_history,
}
use tournament_platform_sdd.Runtime.{Runtime}
use tournament_platform_sdd.Events.Contract.{IsEvent, AllEvents, publish_event-AllEvents}
use tournament_platform_sdd.Teams.Steps.{update_elo-Keeps}
use tournament_platform_sdd.Tournaments.UserRating.{bulk_create}
use tournament_platform_sdd.Tournaments.TournamentService.{start, save_tournament_status}
use tournament_platform_sdd.Consumers.Handlers.{
  notify_team, create_notification_log, create_event_log-Keeps,
}
use tournament_platform_sdd.Views.MatchCreation.{MatchData, create_match}
use tournament_platform_sdd.Views.Tournaments.{TournamentData, insert_tournament}
use tournament_platform_sdd.Views.Teams.{insert_team, insert_user}
use tournament_platform_sdd.Platform.{Reach}
use tournament_platform_sdd.Platform.Outside.{always_saved}
use tournament_platform_sdd.Platform.Steps.{IsKeptByWrites, Reach-Keeps}

module _ (rt : Runtime) where
  -- A write that publishes nothing.
  silent :
      (s w : World)
      → (w.published ≡ s.published) × (w.publish_failures ≡ s.publish_failures)
      → AllEvents rt s
      → AllEvents rt w
  silent s w same h = (
    subst (All (λ (e : String × Json). IsEvent rt e.0 e.1)) (sym same.0) h.0,
    subst (All (λ (e : String × Json). IsEvent rt e.0 e.1)) (sym same.1) h.1,
  )

  user_saved : (k : ℕ) (elo : ℤ) → Keeps (AllEvents rt) (save_user_elo k elo)
  unfolding save_user_elo
  user_saved k elo = record { at = λ w. silent w (save_user_elo k elo w).1 (ground arith) }

  history_made : (rows : List UserEloHistory) → Keeps (AllEvents rt) (bulk_create rows)
  unfolding bulk_create
  history_made [] = record { at = λ w h. h }
  history_made (row ∷ rows) = record {
    at = λ w. silent w (bulk_create (row ∷ rows) w).1 (ground arith);
  }

  team_saved : (k : ℕ) (elo : ℤ) → Keeps (AllEvents rt) (save_team_elo k elo)
  unfolding save_team_elo
  team_saved k elo = record { at = λ w. silent w (save_team_elo k elo w).1 (ground arith) }

  team_history_made :
      (team match_id : ℕ) (before after : ℤ)
      → Keeps (AllEvents rt) (create_team_history team match_id before after)
  unfolding create_team_history
  team_history_made team match_id before after = record {
    at = λ w. silent w (create_team_history team match_id before after w).1 (ground arith);
  }

  match_saved : (m : Match) → Keeps (AllEvents rt) (save_match m)
  unfolding save_match
  match_saved m = record { at = λ w. silent w (save_match m w).1 (ground arith) }

  match_made : (request : MatchData) → Keeps (AllEvents rt) (create_match request)
  unfolding create_match
  match_made request = record { at = λ w. silent w (create_match request w).1 (ground arith) }

  team_notified : (match_id team_id : ℕ) → Keeps (AllEvents rt) (notify_team match_id team_id)
  unfolding notify_team create_notification_log
  team_notified match_id team_id = record {
    at = λ w. silent w (notify_team match_id team_id w).1 (ground arith);
  }

  tournament_made :
      (u : User) (request : TournamentData) → Keeps (AllEvents rt) (insert_tournament u request)
  unfolding insert_tournament
  tournament_made u request = record {
    at = λ w. silent w (insert_tournament u request w).1 (ground arith);
  }

  tournament_started : (k : ℕ) → Keeps (AllEvents rt) (start k)
  unfolding start save_tournament_status
  tournament_started k = record { at = λ w. silent w (start k w).1 (ground arith) }

  team_made : (u : User) (name : String) → Keeps (AllEvents rt) (insert_team u name)
  unfolding insert_team
  team_made u name = record { at = λ w. silent w (insert_team u name w).1 (ground arith) }

  user_made : (u : User) → Keeps (AllEvents rt) (insert_user u)
  unfolding insert_user
  user_made u = record { at = λ w. silent w (insert_user u w).1 (ground arith) }

  writes-AllEvents : (wire : Wire) → IsKeptByWrites wire rt (AllEvents rt)
  writes-AllEvents wire = record {
    user_saved = user_saved;
    history_made = history_made;
    teams_rated = update_elo-Keeps team_saved team_history_made rt.floats;
    match_saved = always_saved (λ m plays. match_saved m);
    match_made = match_made;
    event_published = publish_event-AllEvents rt;
    team_notified = team_notified;
    event_logged = λ topic payload. create_event_log-Keeps wire topic payload (λ w h. h);
    tournament_made = tournament_made;
    tournament_started = tournament_started;
    team_made = team_made;
    user_made = user_made;
    members_edited = λ members registrations. record { at = λ w h. h };
    time_passed = λ n. record { at = λ w h. h };
  }

-- Whatever requests and events the platform serves: each message for the broker, whether it takes
-- it or not, has one of the four topics and the fields of the contract of its topic, with ids,
-- texts and times as the contract asks for; and the winner in a message `match.finished` is one of
-- the two teams in it. This is so if it was so at the start.
pub Reach-AllEvents :
    (wire : Wire) (rt : Runtime) {v w : World} → Reach wire rt v w → AllEvents rt v → AllEvents rt w
Reach-AllEvents wire rt = Reach-Keeps wire rt (writes-AllEvents rt wire)
