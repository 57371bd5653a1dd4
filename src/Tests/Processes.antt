-- ===== src/Tests/Processes.antt =====
-- Examples for the consumer processes.
use tournament_platform_sdd.Base.{
  ◌+◌, List, some, pos, ◌≡◌, refl, Bool, true, false, ltb, if◌then◌else◌, String, [], ◌∷◌, arith,
}
use tournament_platform_sdd.Exec.{ok, err, connection_error, integrity_error}
use tournament_platform_sdd.Tournaments.MatchService.{match_payload}
use tournament_platform_sdd.Json.{Json, null, num, obj, end, field, lookup, subscript}
use tournament_platform_sdd.Events.Consumer.{
  Message, Poll, Process, Handler, back_off, try_attempts, send_dead_letter, handle_with_retry,
  consume_loop,
}
use tournament_platform_sdd.Events.Retry.{handle_with_retry_recovers, handle_with_retry_exhausted}
use tournament_platform_sdd.Events.Loop.{consume_loop_crash}
use tournament_platform_sdd.Consumers.Handlers.{
  create_notification_log, notify_team, payload_of, notify_value, notify_match_finished,
  handle_event, create_event_log,
}
use tournament_platform_sdd.Consumers.Idempotent.{notify_match_finished_twice, handle_event_twice}
use tournament_platform_sdd.Tests.Fixtures.{platform, plain, setting, final_}

abbrev some_value : Json
some_value = obj (
    field "match_id" (num (pos 31))
      (field "team_a_id" (num (pos 11)) (field "team_b_id" (num (pos 12)) end)))

abbrev some_message : Message plain
some_message = record { topic = "match.finished"; value = some_value }

abbrev unknown_message : Message plain
unknown_message = record {
  topic = "match.finished";
  value = obj (field "match_id" (num (pos 99)) end);
}

abbrev fresh : Process plain
fresh = record { world = platform; slept = []; dead_letters = []; committed = []; closed = false }

abbrev open_broker : String → Json → Bool
open_broker topic value = true

abbrev no_broker : String → Json → Bool
no_broker topic value = false

-- A handler that raises until the clock reads 9.
abbrev flaky : Handler plain
flaky msg w =
    if ltb w.now 9
    then (err connection_error, record w { now = w.now + 1 })
    else (ok tt, record w { published = [] })

handle_with_retry_recovers_example :
    handle_with_retry plain open_broker flaky some_message fresh
    ≡ (ok tt, record fresh { world = record platform { now = 9 }; slept = 1 ∷ 2 ∷ [] })
handle_with_retry_recovers_example =
    handle_with_retry_recovers plain open_broker flaky 2 some_message fresh (omega arith)
      (refl, (refl, tt)) refl

-- A handler that always raises.
abbrev down : Handler plain
down msg w = (err connection_error, w)

handle_with_retry_exhausted_example :
    handle_with_retry plain open_broker down some_message fresh ≡ (
      ok tt,
      record fresh {
        slept = 1 ∷ 2 ∷ 4 ∷ [];
        dead_letters = ("match.finished.dlq", some_value) ∷ [];
      },
    )
handle_with_retry_exhausted_example =
    handle_with_retry_exhausted plain open_broker down some_message fresh
      (refl, (refl, (refl, (refl, tt))))

-- The second message is null and goes to the dead-letter topic.
abbrev polls : List (Poll plain)
polls =
    Poll.timeout
    ∷ Poll.received some_message
    ∷ Poll.received (record { topic = "match.finished"; value = null })
    ∷ Poll.interrupt
    ∷ Poll.received some_message
    ∷ []

abbrev commits : Message plain → Bool
commits msg = true

broken_fails : (handle_with_retry plain no_broker down some_message fresh).0 ≡ err connection_error
unfolding handle_with_retry try_attempts back_off send_dead_letter
broken_fails = refl

consume_loop_crash_example :
    let (r, p') =
      consume_loop plain no_broker down commits (Poll.received some_message ∷ []) fresh in
    (r ≡ err connection_error) × (p'.committed ≡ []) × (p'.closed ≡ true)
consume_loop_crash_example =
    consume_loop_crash plain no_broker down commits some_message [] fresh broken_fails

notified_once : (notify_match_finished plain some_message platform).0 ≡ ok tt
unfolding create_notification_log notify_team payload_of notify_value notify_match_finished lookup
    subscript
notified_once = refl

notify_match_finished_twice_example :
    let w' = (notify_match_finished plain some_message platform).1 in
    notify_match_finished plain some_message w' ≡ (ok tt, w')
notify_match_finished_twice_example =
    notify_match_finished_twice plain some_message platform notified_once

logged_once : (handle_event plain some_message platform).0 ≡ ok tt
unfolding payload_of handle_event create_event_log
logged_once = refl

handle_event_twice_example :
    let w' = (handle_event plain some_message platform).1 in
    handle_event plain some_message w' ≡ (ok tt, w')
handle_event_twice_example = handle_event_twice plain some_message platform logged_once

abbrev finished_value : Json
finished_value =
    match_payload setting (record final_ { winner_team_id = some 11; played_at = some 7 })

-- A payload that is null is never logged.
null_refused :
    handle_event plain (record { topic = "match.finished"; value = null }) platform
    ≡ (err integrity_error, platform)
unfolding handle_event payload_of create_event_log
null_refused = refl
