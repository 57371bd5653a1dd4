-- ===== src/Platform/Steps.antt =====
-- What every write of the platform keeps, every state that the platform comes to has.
use tournament_platform_sdd.Base.{
  ℕ, ℤ, pos_part, ◌≡◌, refl, ◌+◌, Bool, true, String, List, Option-cases, Bool-cases, inl, inr,
  some, arith, ◌&&◌, not,
}
use tournament_platform_sdd.Exec.{Exec, Result, ok, err, pure, match_already_finished, modify, ◌>>◌}
use tournament_platform_sdd.Exec.Rules.{Keeps, keeps_rules, Keeps-bind, Keeps-bind_at, Keeps-pure}
use tournament_platform_sdd.Json.{Json, Wire}
use tournament_platform_sdd.Models.{
  World, User, Match, UserEloHistory, is_finished, Role, TeamMember, TournamentTeam,
}
use tournament_platform_sdd.Models.Tables.{find_match, save_user_elo, save_match}
use tournament_platform_sdd.Runtime.{Runtime}
use tournament_platform_sdd.Events.{publish_event}
use tournament_platform_sdd.Events.Contract.{IsEvent}
use tournament_platform_sdd.Events.Consumer.{Message}
use tournament_platform_sdd.Teams.Service.{update_elo}
use tournament_platform_sdd.Tournaments.UserRating.{
  bulk_create, update_team_elo, update_team_elo_by_match_id,
}
use tournament_platform_sdd.Tournaments.Rounds.{update_team_elo-Keeps}
use tournament_platform_sdd.Tournaments.MatchService.{reported, record_result, match_payload}
use tournament_platform_sdd.Tournaments.Report.{find_match-own}
use tournament_platform_sdd.Tournaments.TournamentService.{start}
use tournament_platform_sdd.Consumers.Handlers.{
  notify_team, payload_of, rank_match_finished, notify_value, notify_match_finished, handle_event,
  create_event_log,
}
use tournament_platform_sdd.Views.Access.{
  RequestUser, anonymous, authenticated, is_admin, Action, has_permission, match_permissions,
}
use tournament_platform_sdd.Views.Matches.{
  ReportData, ValidReport, validate_report, report, dispatch_report, respond,
}
use tournament_platform_sdd.Views.MatchCreation.{
  MatchData, create_match, dispatch_create_match, winner_plays,
}
use tournament_platform_sdd.Views.MatchTable.{
  validate_report_sound, report-unknown, report-invalid, report-conflict, report-accepted, row,
}
use tournament_platform_sdd.Views.Tournaments.{TournamentData, insert_tournament}
use tournament_platform_sdd.Views.Tournaments
use tournament_platform_sdd.Views.Teams.{
  insert_team, insert_user, create_user, new_user, team_payload,
}
use tournament_platform_sdd.Views.Teams
use tournament_platform_sdd.Platform.{Request, perform, Reach}
use tournament_platform_sdd.Platform.Payloads.{
  reported-IsEvent, tournament_payload-IsEvent, team_payload-IsEvent, user_payload-IsEvent,
}

-- The winner of a match, if it has one, is one of its teams.
abbrev pub WinnerPlays : Match → Type 0
WinnerPlays m = winner_plays m.winner_team_id m.team_a_id m.team_b_id ≡ true

-- The matches have the same teams.
abbrev pub SameTeams : Match → Match → Type 0
SameTeams m n = (m.team_a_id ≡ n.team_a_id) × (m.team_b_id ≡ n.team_b_id)

-- Saving a match over its row keeps `P`: its winner plays in it, and its teams are those of the row.
abbrev pub KeptBySave : (World → Type 0) → Type 0
KeptBySave P =
    (m old : Match) (w : World)
    → WinnerPlays m
    → find_match m.id w.matches ≡ some old
    → SameTeams old m
    → P w
    → P (save_match m w).1

-- Each write of the platform keeps `P`; what is published keeps the contract of its topic.
pub record IsKeptByWrites (wire : Wire) (rt : Runtime) (P : World → Type 0) : Type 0 where
  pub user_saved : (k : ℕ) (elo : ℤ) → Keeps P (save_user_elo k elo)
  pub history_made : (rows : List UserEloHistory) → Keeps P (bulk_create rows)
  pub teams_rated : (m : Match) → Keeps P (update_elo rt.floats m)
  pub match_saved : KeptBySave P
  pub match_made : (request : MatchData) → Keeps P (create_match request)
  pub event_published :
      (topic : String) (payload : Json)
      → IsEvent rt topic payload
      → Keeps P (publish_event rt topic payload)
  pub team_notified : (match_id team_id : ℕ) → Keeps P (notify_team match_id team_id)
  pub event_logged :
      (topic : String) (payload : Json) → Keeps P (create_event_log wire topic payload)
  pub tournament_made :
      (u : User) (request : TournamentData) → Keeps P (insert_tournament u request)
  pub tournament_started : (k : ℕ) → Keeps P (start k)
  pub team_made : (u : User) (name : String) → Keeps P (insert_team u name)
  pub user_made : (u : User) → Keeps P (insert_user u)
  pub members_edited :
      (members : List TeamMember) (registrations : List TournamentTeam)
      → Keeps P
          (modify (λ w. record w { team_members = members; tournament_teams = registrations }))
  pub time_passed : (n : ℕ) → Keeps P (modify (λ w. record w { now = w.now + n }))

-- The state behind a response is that behind the result.
respond-state :
    (P : World → Type 0) (status : ℕ) (r : Result Match × World) → P r.1 → P (respond status r).1
respond-state P status (ok m, w) h = h
respond-state P status (err match_already_finished, w) h = h
respond-state P status (err _, w) h = h

-- The service is asked to write a winner that plays in the match.
reported_plays :
    (m : Match) (request : ReportData) (vd : ValidReport) (now : ℕ)
    → validate_report m request ≡ some vd
    → WinnerPlays (reported m (pos_part vd.winner_id) vd.score_team_a vd.score_team_b now)
reported_plays m request vd now good =
    let (winner, _, _) = validate_report_sound m request vd good in ground arith

module _ (wire : Wire) (rt : Runtime) {P : World → Type 0} (kept : IsKeptByWrites wire rt P) where
  open kept use {
    user_saved, history_made, teams_rated, match_saved, match_made, event_published, team_notified,
    event_logged, tournament_made, tournament_started, team_made, user_made, members_edited,
    time_passed,
  }

  rating_players : (m : Match) → Keeps P (update_team_elo rt.floats m)
  rating_players = update_team_elo-Keeps user_saved history_made rt.floats

  -- `record_result` behind `match.save()`.
  abbrev after_save : Match → Exec World Match
  after_save m = do
    update_team_elo rt.floats m
    update_elo rt.floats m
    publish_event rt "match.finished" (match_payload rt m)
    pure m

  after_save-Keeps :
      (m : Match) → IsEvent rt "match.finished" (match_payload rt m) → Keeps P (after_save m)
  after_save-Keeps m event =
      search (keeps_rules, rating_players, teams_rated, event_published, event) depth 10

  record_result-Keeps :
      (m old : Match) (w : World)
      → WinnerPlays m
      → IsEvent rt "match.finished" (match_payload rt m)
      → find_match m.id w.matches ≡ some old
      → SameTeams old m
      → P w
      → P (record_result rt m w).1
  unfolding record_result
  record_result-Keeps m old w plays event found same h =
      Keeps-bind_at (save_match m) (λ _. after_save m) w (match_saved m old w plays found same h)
        (λ _. after_save-Keeps m event)

  report-Keeps :
      (user : RequestUser) (pk : ℕ) (request : ReportData) → Keeps P (report rt user pk request)
  report-Keeps user pk request = record {
    at = λ w h. elim (Option-cases (find_match pk w.matches)) [
      | inl gone ↦ rw (report-unknown rt user pk request w gone) h
      | inr (m, found) ↦ elim (Option-cases (validate_report m request)) [
        | inl bad ↦ rw (report-invalid rt user pk request w m found bad) h
        | inr (vd, good) ↦ elim (Bool-cases (is_finished m.status && not (is_admin user))) [
          | inl refused ↦ rw (report-conflict rt user pk request w m found vd good refused) h
          | inr accepted ↦ rw (report-accepted rt user pk request w m found vd good accepted) (
              respond-state P _ (record_result rt (row rt user pk request w m found vd) w) (
                let plays = reported_plays m request vd w.now good in
                record_result-Keeps (row rt user pk request w m found vd) m w plays
                  (reported-IsEvent rt m (pos_part vd.winner_id) vd.score_team_a vd.score_team_b
                    w.now plays)
                  (find_match-own pk w.matches found) (refl, refl) h))
        ]
      ]
    ];
  }

  dispatch_report-Keeps :
      (user : RequestUser) (pk : ℕ) (request : ReportData)
      → Keeps P (dispatch_report rt user pk request)
  unfolding dispatch_report
  dispatch_report-Keeps user pk request = record {
    at = λ w h. elim (Bool-cases (has_permission (match_permissions Action.report) user)) [
      | inl known ↦ rw known ((report-Keeps user pk request).at w h)
      | inr unknown ↦ rw unknown h
    ];
  }

  rank-Keeps : (msg : Message wire) → Keeps P (rank_match_finished wire rt.floats msg)
  unfolding rank_match_finished payload_of update_team_elo_by_match_id
  rank-Keeps msg = search (keeps_rules, rating_players) depth 12

  notify_value-Keeps :
      (match_value team_value : Json) → Keeps P (notify_value wire match_value team_value)
  unfolding notify_value
  notify_value-Keeps match_value team_value = search (keeps_rules, team_notified) depth 10

  notify-Keeps : (msg : Message wire) → Keeps P (notify_match_finished wire msg)
  unfolding notify_match_finished payload_of
  notify-Keeps msg = search (keeps_rules, notify_value-Keeps) depth 14

  log-Keeps : (msg : Message wire) → Keeps P (handle_event wire msg)
  unfolding handle_event payload_of
  log-Keeps msg = search (keeps_rules, event_logged) depth 10

  dispatch_create_match-Keeps :
      (user : RequestUser) (request : MatchData) → Keeps P (dispatch_create_match user request)
  unfolding dispatch_create_match
  dispatch_create_match-Keeps user request = record {
    at = λ w h. elim (Bool-cases (has_permission (match_permissions Action.create) user)) [
      | inl allowed ↦ rw allowed ((match_made request).at w h)
      | inr refused ↦ rw refused h
    ];
  }

  create_tournament-Keeps :
      (user : RequestUser) (request : TournamentData)
      → Keeps P (Tournaments.dispatch_create rt user request)
  unfolding Tournaments.dispatch_create Tournaments.create
  create_tournament-Keeps anonymous request = search keeps_rules
  create_tournament-Keeps (authenticated u) request =
      search (keeps_rules, tournament_made, event_published, tournament_payload-IsEvent) depth 10

  create_team-Keeps :
      (valid_name : String → World → Bool) (u : User) (name : String)
      → Keeps P (Teams.create rt valid_name u name)
  unfolding Teams.create
  create_team-Keeps valid_name u name = record {
    at = λ w h. elim (Bool-cases (valid_name name w)) [
      | inl valid ↦ rw valid (
          (Keeps-bind (insert_team u name) _ (team_made u name) (λ team.
              Keeps-bind (publish_event rt "team.created" (team_payload rt team)) _
                (event_published _ _ (team_payload-IsEvent rt team)) (λ _. Keeps-pure team))).at
            w h)
      | inr invalid ↦ rw invalid h
    ];
  }

  dispatch_create_team-Keeps :
      (valid_name : String → World → Bool) (user : RequestUser) (name : String)
      → Keeps P (Teams.dispatch_create rt valid_name user name)
  unfolding Teams.dispatch_create
  dispatch_create_team-Keeps valid_name anonymous name = search keeps_rules
  dispatch_create_team-Keeps valid_name (authenticated u) name =
      search (keeps_rules, create_team-Keeps) depth 10

  create_user-Keeps :
      (normalize_email make_password : String → String) (email username password : String)
      (role : Role) (elo : ℤ) (is_staff is_superuser : Bool)
      → Keeps P (
          create_user rt normalize_email make_password email username password role elo is_staff
            is_superuser)
  unfolding create_user
  create_user-Keeps normalize_email make_password email username password role elo is_staff
        is_superuser =
      record {
        at = λ w h.
            (Keeps-bind (insert_user _) _ (user_made _) (λ _.
                Keeps-bind (publish_event rt "user.registered" _) _
                  (event_published _ _ (
                    user_payload-IsEvent rt (
                      new_user rt normalize_email make_password w email username password role elo
                        is_staff is_superuser)))
                  (λ _. Keeps-pure _))).at
              w h;
      }

  pub perform-Keeps : (request : Request wire rt) (w : World) → P w → P (perform wire rt request w)
  unfolding perform
  perform-Keeps (Request.report_match user pk request) w h =
      (dispatch_report-Keeps user pk request).at w h
  perform-Keeps (Request.create_match user request) w h =
      (dispatch_create_match-Keeps user request).at w h
  perform-Keeps (Request.create_tournament user request) w h =
      (create_tournament-Keeps user request).at w h
  perform-Keeps (Request.create_team valid_name user name) w h =
      (dispatch_create_team-Keeps valid_name user name).at w h
  perform-Keeps (Request.register email username password role elo is_staff is_superuser) w h =
      (create_user-Keeps _ _ email username password role elo is_staff is_superuser).at w h
  perform-Keeps (Request.start_tournament k) w h = (tournament_started k).at w h
  perform-Keeps (Request.rank msg) w h = (rank-Keeps msg).at w h
  perform-Keeps (Request.notify msg) w h = (notify-Keeps msg).at w h
  perform-Keeps (Request.log msg) w h = (log-Keeps msg).at w h
  perform-Keeps (Request.edit_members members registrations) w h =
      (members_edited members registrations).at w h
  perform-Keeps (Request.wait n) w h = (time_passed n).at w h

  pub Reach-Keeps : {v w : World} → Reach wire rt v w → P v → P w
  Reach-Keeps Reach.here h = h
  Reach-Keeps (Reach.next {v} r request) h = perform-Keeps request v (Reach-Keeps r h)
