-- ===== src/Concurrency.antt =====
-- `MatchService.report_result` of django-api/app/apps/tournaments/services.py statement by statement,
-- for reports that are served at the same time. No transaction is open around the statements, so
-- that those of other requests may come between any two of them. In `update_elo` of
-- apps/teams/services.py the test `exists()` comes before the row locks; what is read and written
-- from the locks on is committed at once, since the locks are held until then.
pub mod Rest
pub mod Alone
pub mod Books
pub mod Race
pub mod Teams
pub mod Checked
pub mod Winners
pub mod Locks
use tournament_platform_sdd.Base.{
  ℕ, zero, suc, ℤ, pos_part, Bool, true, false, not, ◌&&◌, if◌then◌else◌, Option, none, some, List,
  [], ◌∷◌, ◌++◌,
}
use tournament_platform_sdd.Exec.{
  Exec, Result, ok, err, Error, pure, gets, or_raise, raise_if, atomic, ◌>>=◌, ◌>>◌,
  match_not_found, match_already_finished,
}
use tournament_platform_sdd.Json.{Wire}
use tournament_platform_sdd.Models.{World, Match, User, UserEloHistory, is_finished}
use tournament_platform_sdd.Models.Tables.{find_match, save_match}
use tournament_platform_sdd.Runtime.{Runtime}
use tournament_platform_sdd.Events.{publish_event}
use tournament_platform_sdd.Teams.Service.{is_rated, loser_id, rate_teams}
use tournament_platform_sdd.Tournaments.UserRating.{
  members_of, bulk_create, rate_winner, rate_loser,
}
use tournament_platform_sdd.Tournaments.MatchService.{reported, match_payload}
use tournament_platform_sdd.Views.Access.{
  RequestUser, Action, has_permission, is_admin, match_permissions,
}
use tournament_platform_sdd.Views.Matches.{ReportData, validate_report}
use tournament_platform_sdd.Platform.{Request, perform}

-- Where a report is: the statement that it executes next, with the variables that it still needs.
-- `records` is `elo_records`.
pub data Stage : Type 0 where
  -- the match, the winner and both scores as they are reported, and `is_admin`
  fetching : ℕ → ℕ → ℤ → ℤ → Bool → Stage
  saving : Match → Stage
  -- the lists `winner_members` and `loser_members`
  listing_winners : Match → Stage
  listing_losers : Match → List User → Stage
  -- both loops
  rating_winners : Match → List User → List User → List UserEloHistory → Stage
  rating_losers : Match → List User → List UserEloHistory → Stage
  recording : Match → List UserEloHistory → Stage
  -- `update_elo`: the early return, and the rest of the transaction
  checking : Match → Stage
  rating_teams : Match → Stage
  publishing : Match → Stage
  ended : Result Match → Stage

-- `Match.objects.get`, the guard, and the fields that are set before `match.save()`.
unfoldable pub accept : ℕ → ℕ → ℤ → ℤ → Bool → Exec World Match
accept match_id winner_id score_a score_b is_admin = do
  found ← gets (λ w. find_match match_id w.matches)
  m ← or_raise found match_not_found
  raise_if (is_finished m.status && not is_admin) match_already_finished
  now ← gets (λ w. w.now)
  pure (reported m winner_id score_a score_b now)

-- The part of the view before it calls the service: who may report, the match, and the validation.
-- What it refuses is answered at once.
unfoldable pub view_report : RequestUser → ℕ → ReportData → World → List Stage
view_report user pk request w =
    if has_permission (match_permissions Action.report) user
    then (elim (find_match pk w.matches) [
      | none ↦ []
      | some m ↦ elim (validate_report m request) [
        | none ↦ []
        | some vd ↦
            fetching m.id (pos_part vd.winner_id) vd.score_team_a vd.score_team_b (is_admin user)
            ∷ []
      ]
    ])
    else []

-- What follows a statement: the next one, or the end by its exception.
abbrev pub proceed : {A : Type 0} → Result A × World → (A → Stage) → Stage × World
proceed (ok a, w) next = (next a, w)
proceed (err e, w) next = (ended (err e), w)

module _ (rt : Runtime) where
  -- One statement.
  unfoldable pub advance : Stage → World → Stage × World
  advance (fetching match_id winner_id score_a score_b is_admin) w =
      proceed (accept match_id winner_id score_a score_b is_admin w) saving
  advance (saving m) w = proceed (save_match m w) (λ _. listing_winners m)
  advance (listing_winners m) w = (listing_losers m (members_of m.winner_team_id w), w)
  advance (listing_losers m winners) w =
      (rating_winners m winners (members_of (some (loser_id m)) w) [], w)
  advance (rating_winners m [] losers records) w = (rating_losers m losers records, w)
  advance (rating_winners m (user ∷ users) losers records) w =
      proceed (rate_winner rt.floats m user w)
        (λ row. rating_winners m users losers (records ++ row ∷ []))
  advance (rating_losers m [] records) w = (recording m records, w)
  advance (rating_losers m (user ∷ users) records) w =
      proceed (rate_loser rt.floats m user w) (λ row. rating_losers m users (records ++ row ∷ []))
  advance (recording m records) w = proceed (bulk_create records w) (λ _. checking m)
  advance (checking m) w = (if is_rated m.id w then publishing m else rating_teams m, w)
  advance (rating_teams m) w = proceed (atomic (rate_teams rt.floats m) w) (λ _. publishing m)
  advance (publishing m) w =
      proceed (publish_event rt "match.finished" (match_payload rt m) w) (λ _. ended (ok m))
  advance (ended result) w = (ended result, w)

  -- One statement of the report at a place in the list of those under way; there may be none.
  unfoldable pub advance_at : ℕ → List Stage → World → List Stage × World
  advance_at i [] w = ([], w)
  advance_at zero (stage ∷ stages) w = let (stage', w') = advance stage w in (stage' ∷ stages, w')
  advance_at (suc i) (stage ∷ stages) w =
      let (stages', w') = advance_at i stages w in (stage ∷ stages', w')

-- The reports under way, and the state that they share.
pub record System : Type 0 where
  pub world : World
  pub reports : List Stage

module _ (wire : Wire) (rt : Runtime) where
  -- What may happen next: another request is served or an event handled, the view lets a report
  -- through to the service, the service is called otherwise, or a report that is under way executes
  -- its next statement. A report that is never continued has crashed.
  pub data Happening : Type 0 where
    served : Request wire rt → Happening
    asked : RequestUser → ℕ → ReportData → Happening
    -- the match, the winner, both scores, and `is_admin`
    came : ℕ → ℕ → ℤ → ℤ → Bool → Happening
    continued : ℕ → Happening

  unfoldable pub happen : Happening → System → System
  happen (served request) s = record s { world = perform wire rt request s.world }
  happen (asked user pk request) s = record s {
    reports = s.reports ++ view_report user pk request s.world;
  }
  happen (came match_id winner_id score_a score_b is_admin) s = record s {
    reports = s.reports ++ fetching match_id winner_id score_a score_b is_admin ∷ [];
  }
  happen (continued i) s =
      let (reports, w) = advance_at rt i s.reports s.world in
      record { world = w; reports = reports }

  -- An interleaving, as the sequence of what happens.
  unfoldable pub run : List Happening → System → System
  run [] s = s
  run (h ∷ hs) s = run hs (happen h s)
