-- ===== src/Consumers/Ranking.antt =====
-- ranking_consumer.py of django-api/app/consumers beside `MatchService.report_result`, which has
-- already rated the players when the event `match.finished` arrives.
use tournament_platform_sdd.Base.{
  ℕ, ℤ, ◌≡◌, refl, ◌∙◌, Bool, false, Bool-cases, inl, inr, Option, none, some, String, arith,
}
use tournament_platform_sdd.Exec.{Exec, ok, pure, ◌>>◌}
use tournament_platform_sdd.Exec.Rules.{
  Keeps, Keeps-bind, keeps_rules, Ensures, Ensures-bind, Ensures-then-Keeps,
}
use tournament_platform_sdd.Json.{Json, Wire, subscript}
use tournament_platform_sdd.Models.{World, Match}
use tournament_platform_sdd.Models.Tables.{
  find_match, save_match, save_team_elo, create_team_history,
}
use tournament_platform_sdd.Floats.{PyFloat}
use tournament_platform_sdd.Runtime.{Runtime}
use tournament_platform_sdd.Events.{publish_event}
use tournament_platform_sdd.Events.Consumer.{Message}
use tournament_platform_sdd.Teams.Service.{loser_id, update_elo}
use tournament_platform_sdd.Teams.Steps.{update_elo-Keeps}
use tournament_platform_sdd.Tournaments.UserRating.{
  members_of, update_team_elo, update_team_elo_by_match_id,
}
use tournament_platform_sdd.Tournaments.MatchService.{
  reported, match_payload, record_result, report_result,
}
use tournament_platform_sdd.Tournaments.Players.{
  IsUserRated, IsSettled, update_team_elo-settles, update_team_elo-nobody,
}
use tournament_platform_sdd.Tournaments.Report.{
  report_result_stored, find_match-own, report_result-carried,
}
use tournament_platform_sdd.Consumers.Handlers.{is_user_rated, payload_of, rank_match_finished}

-- The state has the players, the members and the history of `s`.
pub record SamePlayers (s w : World) : Type 0 where
  pub users : w.users ≡ s.users
  pub members : w.team_members ≡ s.team_members
  pub history : w.user_elo_history ≡ s.user_elo_history

module _ (s : World) where
  save_team_elo-players : (k : ℕ) (elo : ℤ) → Keeps (SamePlayers s) (save_team_elo k elo)
  unfolding save_team_elo
  save_team_elo-players k elo = record { at = λ w h. ground arith }

  create_team_history-players :
      (team match_id : ℕ) (before after : ℤ)
      → Keeps (SamePlayers s) (create_team_history team match_id before after)
  unfolding create_team_history
  create_team_history-players team match_id before after = record { at = λ w h. ground arith }

  publish_event-players :
      (rt : Runtime) (topic : String) (payload : Json)
      → Keeps (SamePlayers s) (publish_event rt topic payload)
  unfolding publish_event
  publish_event-players rt topic payload = record { at = λ w h. ground arith }

SamePlayers-members_of :
    (team : Option ℕ) {s w : World} → SamePlayers s w → members_of team w ≡ members_of team s
unfolding members_of
SamePlayers-members_of none same = refl
SamePlayers-members_of (some k) same = rw (same.members, same.users)

pub SamePlayers-IsSettled :
    (m : Match) {s w : World} → SamePlayers s w → IsSettled m s → IsSettled m w
SamePlayers-IsSettled m same (inl rated) = inl (rw same.history rated)
SamePlayers-IsSettled m same (inr (nw, nl)) = inr (
  SamePlayers-members_of m.winner_team_id same ∙ nw,
  SamePlayers-members_of (some (loser_id m)) same ∙ nl,
)

module _ (rt : Runtime) where
  -- The steps of `report_result` after the players are rated.
  after_players : Match → Exec World Match
  after_players m = do
    update_elo rt.floats m
    publish_event rt "match.finished" (match_payload rt m)
    pure m

  after_players-players : (s : World) (m : Match) → Keeps (SamePlayers s) (after_players m)
  unfolding after_players
  after_players-players s m =
      Keeps-bind (update_elo rt.floats m) _
        (update_elo-Keeps (save_team_elo-players s) (create_team_history-players s) rt.floats m)
        (λ _. search (keeps_rules, publish_event-players))

  after_players-IsSettled : (m : Match) → Keeps (IsSettled m) (after_players m)
  after_players-IsSettled m = record {
    at = λ s h.
        SamePlayers-IsSettled m
          ((after_players-players s m).at s
            (record { users = refl; members = refl; history = refl }))
          h;
  }

  record_result-eq :
      (m : Match)
      → record_result rt m ≡ (save_match m >> (update_team_elo rt.floats m >> after_players m))
  unfolding record_result after_players
  record_result-eq m = refl

  record_result-settles : (m : Match) → Ensures (IsSettled m) (record_result rt m)
  record_result-settles m = rw (record_result-eq m) (
      Ensures-bind (save_match m) _ (λ _.
        Ensures-then-Keeps (update_team_elo rt.floats m) _
          (record { at = λ s _ h. update_team_elo-settles rt.floats m s h })
          (λ _. after_players-IsSettled m)))

-- A report that returns leaves the players of its match rated, or there are none.
pub report_result-settles :
    (rt : Runtime) (match_id winner_id : ℕ) (a b : ℤ) (is_admin : Bool) (w : World) (m m' : Match)
    → find_match match_id w.matches ≡ some m
    → (report_result rt match_id winner_id a b is_admin w).0 ≡ ok m'
    → IsSettled m' (report_result rt match_id winner_id a b is_admin w).1
report_result-settles rt match_id winner_id a b is_admin w m m' found h =
    let (same, _, _) = report_result_stored rt match_id winner_id a b is_admin w m m' found h in
    let carried = report_result-carried rt match_id winner_id a b is_admin w m found h in
    let r = reported m winner_id a b w.now in
    rw (same, carried) ((record_result-settles rt r).at w m' (rw carried at h))

by_match_id :
    (fl : PyFloat) (m : Match) (w : World)
    → find_match m.id w.matches ≡ some m
    → update_team_elo_by_match_id fl m.id w ≡ update_team_elo fl m w
unfolding update_team_elo_by_match_id
by_match_id fl m w found = rw found

module _ (wire : Wire) (fl : PyFloat) (rt : Runtime) where
  rank-rated :
      (msg : Message wire) (m : Match) (w : World)
      → wire.loads msg.value ≡ some (match_payload rt m)
      → IsUserRated m.id w
      → rank_match_finished wire fl msg w ≡ (ok tt, w)
  unfolding rank_match_finished payload_of subscript
  rank-rated msg m w read rated = rw read (rw wire.id_of-num (rw rated))

  rank-new :
      (msg : Message wire) (m : Match) (w : World)
      → wire.loads msg.value ≡ some (match_payload rt m)
      → is_user_rated m.id w ≡ false
      → rank_match_finished wire fl msg w ≡ update_team_elo_by_match_id fl m.id w
  unfolding rank_match_finished payload_of subscript
  rank-new msg m w read new = rw read (rw wire.id_of-num (rw new))

  pub rank-settled :
      (msg : Message wire) (m : Match) (w : World)
      → wire.loads msg.value ≡ some (match_payload rt m)
      → find_match m.id w.matches ≡ some m
      → IsSettled m w
      → rank_match_finished wire fl msg w ≡ (ok tt, w)
  rank-settled msg m w read found (inl rated) = rank-rated msg m w read rated
  rank-settled msg m w read found (inr (nw, nl)) = elim (Bool-cases (is_user_rated m.id w)) [
    | inl rated ↦ rank-rated msg m w read rated
    | inr new ↦
        rank-new msg m w read new ∙ by_match_id fl m w found ∙ update_team_elo-nobody fl m w nw nl
  ]

  -- After a report was carried out to its end, the ranking consumer handles its event
  -- `match.finished` without an exception and without any change: no player's rating is counted
  -- twice, and no second row of history is written.
  pub rank_after_report :
      (match_id winner_id : ℕ) (a b : ℤ) (is_admin : Bool) (w : World) (m m' : Match)
      (msg : Message wire)
      → find_match match_id w.matches ≡ some m
      → (report_result rt match_id winner_id a b is_admin w).0 ≡ ok m'
      → msg.value ≡ wire.dumps (match_payload rt m')
      → let w' = (report_result rt match_id winner_id a b is_admin w).1 in
        rank_match_finished wire fl msg w' ≡ (ok tt, w')
  rank_after_report match_id winner_id a b is_admin w m m' msg found h sent =
      let w' = (report_result rt match_id winner_id a b is_admin w).1 in
      let (_, stored, _) = report_result_stored rt match_id winner_id a b is_admin w m m' found h in
      rank-settled msg m' w' (rw sent (wire.loads-dumps (match_payload rt m')))
        (find_match-own match_id w'.matches stored)
        (report_result-settles rt match_id winner_id a b is_admin w m m' found h)
