-- ===== src/Platform/Winners.antt =====
-- The winner of a match plays in it, in every state that the platform comes to.
use tournament_platform_sdd.Base.{
  ℕ, ℤ, ◌++◌, [], ◌∷◌, List, String, All, arith, ◌==◌, update_where, subst, sym,
}
use tournament_platform_sdd.Exec.{atomic}
use tournament_platform_sdd.Floats.{PyFloat}
use tournament_platform_sdd.Events.{publish_event}
use tournament_platform_sdd.Teams.Service.{rate_teams}
use tournament_platform_sdd.Exec.Rules.{Keeps, Keeps-atomic}
use tournament_platform_sdd.Json.{Json, Wire}
use tournament_platform_sdd.Models.{World, User, Match}
use tournament_platform_sdd.Models.Tables.{save_team_elo, create_team_history, save_match}
use tournament_platform_sdd.Runtime.{Runtime}
use tournament_platform_sdd.Teams.Steps.{rate_teams-Keeps, update_elo-Keeps}
use tournament_platform_sdd.Consumers.Handlers.{notify_team, create_notification_log}
use tournament_platform_sdd.Views.MatchCreation.{MatchData, create_match, match_valid, new_match}
use tournament_platform_sdd.Views.Teams.{insert_team}
use tournament_platform_sdd.Platform.{Reach}
use tournament_platform_sdd.Platform.Outside.{always_saved, kept_by_writes, event_published}
use tournament_platform_sdd.Platform.Steps.{WinnerPlays, IsKeptByWrites, Reach-Keeps}

abbrev pub AllWinnersPlay : World → Type 0
AllWinnersPlay w = All WinnerPlays w.matches

All-update_where :
    (k : ℕ) (m : Match) (ms : List Match)
    → WinnerPlays m
    → All WinnerPlays ms
    → All WinnerPlays (update_where (λ x. x.id == k) (λ x. m) ms)
All-update_where k m [] plays h = tt
All-update_where k m (x ∷ xs) plays h = ground (arith, All-update_where k m xs plays)

All-last :
    (m : Match) (ms : List Match)
    → WinnerPlays m
    → All WinnerPlays ms
    → All WinnerPlays (ms ++ m ∷ [])
All-last m [] plays h = (plays, tt)
All-last m (x ∷ xs) plays h = (h.0, All-last m xs plays h.1)

pub save_match-AllWinnersPlay : (m : Match) → WinnerPlays m → Keeps AllWinnersPlay (save_match m)
unfolding save_match
save_match-AllWinnersPlay m plays = record {
  at = λ w h. ground (arith, All-update_where m.id m w.matches plays h);
}

create_match-AllWinnersPlay : (request : MatchData) → Keeps AllWinnersPlay (create_match request)
unfolding create_match match_valid
create_match-AllWinnersPlay request = record {
  at = λ w h. ground (arith, All-last (new_match w.next_id request) w.matches);
}

save_team_elo-AllWinnersPlay : (k : ℕ) (elo : ℤ) → Keeps AllWinnersPlay (save_team_elo k elo)
unfolding save_team_elo
save_team_elo-AllWinnersPlay k elo = record { at = λ w h. ground arith }

create_team_history-AllWinnersPlay :
    (team match_id : ℕ) (before after : ℤ)
    → Keeps AllWinnersPlay (create_team_history team match_id before after)
unfolding create_team_history
create_team_history-AllWinnersPlay team match_id before after = record { at = λ w h. ground arith }

insert_team-AllWinnersPlay : (u : User) (name : String) → Keeps AllWinnersPlay (insert_team u name)
unfolding insert_team
insert_team-AllWinnersPlay u name = record { at = λ w h. ground arith }

notify_team-AllWinnersPlay :
    (match_id team_id : ℕ) → Keeps AllWinnersPlay (notify_team match_id team_id)
unfolding notify_team create_notification_log
notify_team-AllWinnersPlay match_id team_id = record { at = λ w h. ground arith }

pub writes-AllWinnersPlay : (wire : Wire) (rt : Runtime) → IsKeptByWrites wire rt AllWinnersPlay
writes-AllWinnersPlay wire rt =
    kept_by_writes (λ s w e h. subst (All WinnerPlays) (sym e.matches) h) wire rt
      (update_elo-Keeps save_team_elo-AllWinnersPlay create_team_history-AllWinnersPlay rt.floats)
      (always_saved save_match-AllWinnersPlay) create_match-AllWinnersPlay
      notify_team-AllWinnersPlay insert_team-AllWinnersPlay

pub rate_teams-AllWinnersPlay :
    (fl : PyFloat) (m : Match) → Keeps AllWinnersPlay (atomic (rate_teams fl m))
rate_teams-AllWinnersPlay fl m =
    Keeps-atomic (rate_teams fl m)
      (rate_teams-Keeps save_team_elo-AllWinnersPlay create_team_history-AllWinnersPlay fl m)

pub publish_event-AllWinnersPlay :
    (rt : Runtime) (topic : String) (payload : Json)
    → Keeps AllWinnersPlay (publish_event rt topic payload)
publish_event-AllWinnersPlay =
    event_published (λ s w e h. subst (All WinnerPlays) (sym e.matches) h)

-- Whatever requests and events the platform serves: a match that has a winner at all has one of its
-- two teams as the winner, if this was so at the start.
pub Reach-AllWinnersPlay :
    (wire : Wire) (rt : Runtime) {v w : World}
    → Reach wire rt v w
    → AllWinnersPlay v
    → AllWinnersPlay w
Reach-AllWinnersPlay wire rt = Reach-Keeps wire rt (writes-AllWinnersPlay wire rt)
