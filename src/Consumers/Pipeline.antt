-- ===== src/Consumers/Pipeline.antt =====
-- From a report to the consumers of its event: django-api/app/consumers beside
-- `MatchService.report_result`. The three consumers are processes of their own, so that their
-- attempts at the event come in any order, and any of them may be repeated.
pub mod Served
pub mod Effects
use tournament_platform_sdd.Base.{
  ℕ, ℤ, pos, ◌≡◌, refl, ◌∙◌, ap, sym, subst, Bool, true, false, Bool-cases, inl, inr, ◌==◌, ◌&&◌,
  ◌||◌, none, some, List, [], ◌∷◌, any, any-of_find?, arith,
}
use tournament_platform_sdd.Exec.{ok, err, modify, ◌>>=◌, ◌>>◌}
use tournament_platform_sdd.Exec.Rules.{Keeps, Keeps-bind, keeps_rules}
use tournament_platform_sdd.Json.{Json, num, Wire, subscript}
use tournament_platform_sdd.Models.{World, Match, User, Team, UserEloHistory, TeamEloHistory}
use tournament_platform_sdd.Models.Tables.{find_match}
use tournament_platform_sdd.Floats.{PyFloat}
use tournament_platform_sdd.Runtime.{Runtime}
use tournament_platform_sdd.Events.Consumer.{Message}
use tournament_platform_sdd.Tournaments.MatchService.{reported, match_payload, report_result}
use tournament_platform_sdd.Tournaments.Players.{IsSettled}
use tournament_platform_sdd.Tournaments.Report.{report_result_stored, find_match-own}
use tournament_platform_sdd.Consumers.Handlers.{
  is_notified, create_notification_log, notify_team, notify_value, payload_of, rank_match_finished,
  notify_match_finished, create_event_log, handle_event,
}
use tournament_platform_sdd.Consumers.Idempotent.{
  is_known, RemembersNotified, notified_world, notify_team-again, notify_team-new,
  notify_team-unknown, notify_team-remembers, notify_team-notifies,
}
use tournament_platform_sdd.Consumers.Ranking.{
  rank-settled, report_result-settles, SamePlayers-IsSettled,
}

-- The consumers, by their files.
pub data Consumer : Type 0 where
  ranking notification log : Consumer

-- The state has the tables of `s` that ratings are made from.
pub record IsRatedAs (s w : World) : Type 0 where
  pub matches : w.matches ≡ s.matches
  pub users : w.users ≡ s.users
  pub teams : w.teams ≡ s.teams
  pub members : w.team_members ≡ s.team_members
  pub user_history : w.user_elo_history ≡ s.user_elo_history
  pub team_history : w.team_elo_history ≡ s.team_elo_history

abbrev pub is_notification : Consumer → Bool
is_notification notification = true
is_notification _ = false

module _ (wire : Wire) (fl : PyFloat) where
  -- The state after an attempt of a consumer at the message.
  unfoldable pub attempt : Consumer → Message wire → World → World
  attempt ranking msg w = (rank_match_finished wire fl msg w).1
  attempt notification msg w = (notify_match_finished wire msg w).1
  attempt log msg w = (handle_event wire msg w).1

  unfoldable pub consumed : List Consumer → Message wire → World → World
  consumed [] msg w = w
  consumed (c ∷ cs) msg w = consumed cs msg (attempt c msg w)
