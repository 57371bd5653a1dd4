-- ===== src/Consumers/Pipeline/Effects.antt =====
-- What the consumers do with the event of a report, in any order.
use tournament_platform_sdd.Base.{ℕ, ℤ, ◌≡◌, refl, Bool, true, ◌==◌, some, List, any, any-of_find?}
use tournament_platform_sdd.Exec.{ok}
use tournament_platform_sdd.Json.{Wire}
use tournament_platform_sdd.Models.{World, Match}
use tournament_platform_sdd.Models.Tables.{find_match}
use tournament_platform_sdd.Floats.{PyFloat}
use tournament_platform_sdd.Runtime.{Runtime}
use tournament_platform_sdd.Events.Consumer.{Message}
use tournament_platform_sdd.Tournaments.MatchService.{match_payload, report_result}
use tournament_platform_sdd.Tournaments.Report.{report_result_stored, find_match-own}
use tournament_platform_sdd.Consumers.Handlers.{is_notified}
use tournament_platform_sdd.Consumers.Ranking.{report_result-settles}
use tournament_platform_sdd.Consumers.Pipeline.{Consumer, IsRatedAs, is_notification, consumed}
use tournament_platform_sdd.Consumers.Pipeline.Served.{
  IsServed, itself, consumed-IsServed, consumed-notifies,
}

module _ (wire : Wire) (fl : PyFloat) (rt : Runtime) where
  -- After a report was carried out to its end, with both teams in their table, let the three
  -- consumers make any attempts at its event `match.finished`, in any order and any number: no
  -- rating, no history and no match is changed, not by the ranking consumer either, since the report
  -- has rated the players itself. If the notification consumer is among them, both teams are notified
  -- of the match in the end.
  pub report_result-consumed :
      (match_id winner_id : ℕ) (a b : ℤ) (is_admin : Bool) (w : World) (m m' : Match)
      (msg : Message wire) (cs : List Consumer)
      → find_match match_id w.matches ≡ some m
      → (report_result rt match_id winner_id a b is_admin w).0 ≡ ok m'
      → msg.value ≡ wire.dumps (match_payload rt m')
      → let s = (report_result rt match_id winner_id a b is_admin w).1 in
        any (λ t. t.id == m'.team_a_id) s.teams ≡ true
        → any (λ t. t.id == m'.team_b_id) s.teams ≡ true
        → IsRatedAs s (consumed wire fl cs msg s)
          × (any is_notification cs ≡ true
              → (is_notified m'.id m'.team_a_id (consumed wire fl cs msg s) ≡ true)
                × (is_notified m'.id m'.team_b_id (consumed wire fl cs msg s) ≡ true))
  report_result-consumed match_id winner_id a b is_admin w m m' msg cs found h sent known_a
        known_b =
      let s = (report_result rt match_id winner_id a b is_admin w).1 in
      let (_, stored, _) = report_result_stored rt match_id winner_id a b is_admin w m m' found h in
      let own = find_match-own match_id s.matches stored in
      let read : wire.loads msg.value ≡ some (match_payload rt m') =
        rw sent (wire.loads-dumps (match_payload rt m')) in
      let here = any-of_find? (λ (x : Match). x.id == m'.id) s.matches own in
      let served : IsServed wire fl rt m' msg read s s = record {
        as_reported = itself wire fl rt m' msg read s;
        stored = own;
        settled = report_result-settles rt match_id winner_id a b is_admin w m m' found h;
        known_a = rw (here, known_a) refl;
        known_b = rw (here, known_b) refl;
      } in
      (
        (consumed-IsServed wire fl rt m' msg read cs s s served).as_reported,
        λ some_. consumed-notifies wire fl rt m' msg read cs s s some_ served,
      )
