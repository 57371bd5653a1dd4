-- ===== src/Concurrency/Books.antt =====
-- The books of the teams' ratings while reports are served at the same time: the unique constraint
-- and the transaction of `update_elo` make up for its test coming before its locks.
use tournament_platform_sdd.Base.{◌≡◌, refl, ℕ, zero, suc, ℤ, Bool, String, List, [], ◌∷◌}
use tournament_platform_sdd.Exec.{Result, ok, err, atomic}
use tournament_platform_sdd.Exec.Rules.{Keeps, keeps_rules}
use tournament_platform_sdd.Json.{Json, Wire}
use tournament_platform_sdd.Models.{World, Match}
use tournament_platform_sdd.Models.Tables.{save_match}
use tournament_platform_sdd.Runtime.{Runtime}
use tournament_platform_sdd.Events.{publish_event}
use tournament_platform_sdd.Teams.Service.{rate_teams}
use tournament_platform_sdd.Concurrency.{
  Stage, fetching, saving, listing_winners, listing_losers, rating_winners, rating_losers,
  recording, checking, rating_teams, publishing, ended, accept, proceed, advance, advance_at,
  System, Happening, happen, run,
}
use tournament_platform_sdd.Platform.Steps.{IsKeptByWrites, perform-Keeps}
use tournament_platform_sdd.Tournaments.Rounds.{rate_winner-Keeps, rate_loser-Keeps}
use tournament_platform_sdd.Platform.Balance.{IsLedger}
use tournament_platform_sdd.Platform.Ledger.{
  writes-IsLedger, save_match-IsLedger, rate_teams-IsLedger, publish_event-IsLedger,
}
use tournament_platform_sdd.Platform.Once.{
  HasNoTwice, writes-HasNoTwice, save_match-HasNoTwice, rate_teams-HasNoTwice,
  publish_event-HasNoTwice,
}

-- The state behind a statement is that behind its result.
proceed-state :
    (P : World → Type 0) {A : Type 0} (x : Result A × World) (next : A → Stage)
    → P x.1
    → P (proceed x next).1
proceed-state P (ok a, w) next h = h
proceed-state P (err e, w) next h = h

-- What the writes of the platform and those of a report keep, a statement keeps.
module _ (wire : Wire) (rt : Runtime) {P : World → Type 0} (kept : IsKeptByWrites wire rt P)
    (rated : (m : Match) → Keeps P (atomic (rate_teams rt.floats m)))
    (published : (topic : String) (payload : Json) → Keeps P (publish_event rt topic payload)) where
  accept-Keeps :
      (match_id winner_id : ℕ) (a b : ℤ) (is_admin : Bool)
      → Keeps P (accept match_id winner_id a b is_admin)
  unfolding accept
  accept-Keeps match_id winner_id a b is_admin = search keeps_rules depth 10

  -- A statement, where `match.save()` keeps `P` if it comes next.
  pub advance-Keeps :
      (s : Stage) (w : World)
      → ((m : Match) → s ≡ saving m → P (save_match m w).1)
      → P w
      → P (advance rt s w).1
  unfolding advance
  advance-Keeps (fetching match_id winner_id a b is_admin) w saved h =
      proceed-state P _ saving ((accept-Keeps match_id winner_id a b is_admin).at w h)
  advance-Keeps (saving m) w saved h =
      proceed-state P (save_match m w) (λ _. listing_winners m) (saved m refl)
  advance-Keeps (listing_winners m) w saved h = h
  advance-Keeps (listing_losers m winners) w saved h = h
  advance-Keeps (rating_winners m [] losers records) w saved h = h
  advance-Keeps (rating_winners m (user ∷ users) losers records) w saved h =
      proceed-state P _ _
        ((rate_winner-Keeps kept.user_saved kept.history_made rt.floats m user).at w h)
  advance-Keeps (rating_losers m [] records) w saved h = h
  advance-Keeps (rating_losers m (user ∷ users) records) w saved h =
      proceed-state P _ _
        ((rate_loser-Keeps kept.user_saved kept.history_made rt.floats m user).at w h)
  advance-Keeps (recording m records) w saved h =
      proceed-state P _ _ ((kept.history_made records).at w h)
  advance-Keeps (checking m) w saved h = h
  advance-Keeps (rating_teams m) w saved h = proceed-state P _ _ ((rated m).at w h)
  advance-Keeps (publishing m) w saved h = proceed-state P _ _ ((published _ _).at w h)
  advance-Keeps (ended result) w saved h = h

-- And every interleaving keeps it, where every save of a match does.
module _ (wire : Wire) (rt : Runtime) {P : World → Type 0} (kept : IsKeptByWrites wire rt P)
    (saved : (m : Match) → Keeps P (save_match m))
    (rated : (m : Match) → Keeps P (atomic (rate_teams rt.floats m)))
    (published : (topic : String) (payload : Json) → Keeps P (publish_event rt topic payload)) where
  advance_at-Keeps : (i : ℕ) (ss : List Stage) (w : World) → P w → P (advance_at rt i ss w).1
  unfolding advance_at
  advance_at-Keeps i [] w h = h
  advance_at-Keeps zero (s ∷ ss) w h =
      advance-Keeps wire rt kept rated published s w (λ m e. (saved m).at w h) h
  advance_at-Keeps (suc i) (s ∷ ss) w h = advance_at-Keeps i ss w h

  happen-Keeps : (e : Happening wire rt) (s : System) → P s.world → P (happen wire rt e s).world
  unfolding happen
  happen-Keeps (Happening.served request) s h = perform-Keeps wire rt kept request s.world h
  happen-Keeps (Happening.asked user pk request) s h = h
  happen-Keeps (Happening.came match_id winner_id a b is_admin) s h = h
  happen-Keeps (Happening.continued i) s h = advance_at-Keeps i s.reports s.world h

  run-Keeps : (es : List (Happening wire rt)) (s : System) → P s.world → P (run wire rt es s).world
  unfolding run
  run-Keeps [] s h = h
  run-Keeps (e ∷ es) s h = run-Keeps es (happen wire rt e s) (happen-Keeps e s h)

-- However the statements of any number of reports come between one another and between other
-- requests and events, and wherever a report stops for good: each team's rating is the initial one
-- and the changes that its history records, and no team has two rows of history for a match, if
-- this was so at the start.
pub run-IsLedger :
    (wire : Wire) (rt : Runtime) (es : List (Happening wire rt)) (s : System)
    → IsLedger s.world
    → HasNoTwice s.world
    → IsLedger (run wire rt es s).world × HasNoTwice (run wire rt es s).world
run-IsLedger wire rt es s books once = (
  run-Keeps wire rt (writes-IsLedger wire rt) save_match-IsLedger (rate_teams-IsLedger rt.floats)
      (publish_event-IsLedger rt) es s books,
  run-Keeps wire rt (writes-HasNoTwice wire rt) save_match-HasNoTwice
      (rate_teams-HasNoTwice rt.floats) (publish_event-HasNoTwice rt) es s once,
)
