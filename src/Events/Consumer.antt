-- ===== src/Events/Consumer.antt =====
-- django-api/app/events/consumer_base.py: the loop of a consumer process, with retries and the
-- dead-letter topic.
use tournament_platform_sdd.Base.{
  ℕ, Bool, true, false, List, [], ◌∷◌, ◌++◌, String, ltb, if◌then◌else◌, get_or,
}
use Prim.Native.String.{◌++◌ as str_append}
use tournament_platform_sdd.Exec.{Exec, Result, ok, err, connection_error, is_exception, ◌>>◌}
use tournament_platform_sdd.Json.{Wire}
use tournament_platform_sdd.Models.{World}

abbrev pub max_retries : ℕ
max_retries = 3

abbrev pub backoff_seconds : List ℕ
backoff_seconds = 1 ∷ 2 ∷ 4 ∷ []

-- `range(_MAX_RETRIES + 1)`
abbrev pub attempts : List ℕ
attempts = 0 ∷ 1 ∷ 2 ∷ 3 ∷ []

module _ (wire : Wire) where
  open wire use {Bytes}

  pub record Message : Type 0 where
    pub topic : String
    pub value : Bytes

  -- What `consumer.poll` gives: nothing within its second, a message with an error, a message, or
  -- the process is interrupted meanwhile.
  pub data Poll : Type 0 where
    timeout failure interrupt : Poll
    received : Message → Poll

  -- A consumer process: the database that its handler works on, the seconds that it slept, what it
  -- sent to dead-letter topics, the offsets that it committed, and whether its consumer is closed.
  pub record Process : Type 0 where
    pub world : World
    pub slept : List ℕ
    pub dead_letters : List (String × Bytes)
    pub committed : List Message
    pub closed : Bool

  -- `handler(msg)`: an exception of the handler comes back as a value, with the database as the
  -- handler left it.
  abbrev pub Handler : Type 0
  Handler = Message → Exec World (Unit {0})

  module _ (dlq_accepts : String → Bytes → Bool) (handler : Handler) where
    -- The `except` branch: every attempt but the last sleeps.
    unfoldable pub back_off : ℕ → World → Process → Process
    back_off attempt w p =
        if ltb attempt max_retries
        then record p { world = w; slept = p.slept ++ get_or backoff_seconds attempt 0 ∷ [] }
        else record p { world = w }

    -- What follows an attempt: `return`, the next one, or what `except Exception` does not catch.
    abbrev pub tried :
        Result (Unit {0}) × World → Process → Result Bool × Process → Result Bool × Process
    tried (ok u, w) p later = (ok true, record p { world = w })
    tried (err e, w) p later = if is_exception e then later else (err e, record p { world = w })

    -- `for attempt in range(…)`: whether an attempt returned.
    unfoldable pub try_attempts : List ℕ → Message → Exec Process Bool
    try_attempts [] msg p = (ok false, p)
    try_attempts (attempt ∷ rest) msg p =
        let x = handler msg p.world in tried x p (try_attempts rest msg (back_off attempt x.1 p))

    -- `produce` and `flush` of the dead-letter producer; their exceptions are not caught.
    unfoldable pub send_dead_letter : Message → Exec Process (Unit {0})
    send_dead_letter msg p =
        let topic = str_append msg.topic ".dlq" in
        if dlq_accepts topic msg.value
        then (ok tt, record p { dead_letters = p.dead_letters ++ (topic, msg.value) ∷ [] })
        else (err connection_error, p)

    -- What comes after the attempts.
    abbrev pub settle : Message → Result Bool × Process → Result (Unit {0}) × Process
    settle msg (ok true, p) = (ok tt, p)
    settle msg (ok false, p) = send_dead_letter msg p
    settle msg (err e, p) = (err e, p)

    unfoldable pub handle_with_retry : Message → Exec Process (Unit {0})
    handle_with_retry msg p = settle msg (try_attempts attempts msg p)

    -- The `finally` clause.
    abbrev pub close : Process → Process
    close p = record p { closed = true }

    module _ (commit_accepts : Message → Bool) where
      -- `consumer.commit(msg)`, which raises where the broker does not take the offset.
      abbrev pub commit : Message → Exec Process (Unit {0})
      commit msg p =
          if commit_accepts msg
          then (ok tt, record p { committed = p.committed ++ msg ∷ [] })
          else (err connection_error, p)

      -- An exception leaves the loop, by way of `finally`.
      abbrev pub leave_or :
          Result (Unit {0}) × Process → Result (Unit {0}) × Process → Result (Unit {0}) × Process
      leave_or (ok u, p) rest = rest
      leave_or (err e, p) rest = (err e, close p)

      -- `while True`, over what the polls give. A `KeyboardInterrupt` ends the loop, and an
      -- exception of `handle_with_retry` or of the commit leaves it; where the polls given here
      -- end, the loop goes on waiting.
      unfoldable pub consume_loop : List Poll → Exec Process (Unit {0})
      consume_loop [] p = (ok tt, p)
      consume_loop (Poll.timeout ∷ polls) p = consume_loop polls p
      consume_loop (Poll.failure ∷ polls) p = consume_loop polls p
      consume_loop (Poll.interrupt ∷ polls) p = (ok tt, close p)
      consume_loop (Poll.received msg ∷ polls) p =
          let x = (handle_with_retry msg >> commit msg) p in leave_or x (consume_loop polls x.1)
