-- ===== src/Events/Retry.antt =====
-- `handle_with_retry` of django-api/app/events/consumer_base.py, for a handler that may fail.
use tournament_platform_sdd.Base.{
  ℕ, zero, suc, ◌≤◌, ◌≡◌, refl, ap, ◌∙◌, Bool, true, false, List, [], ◌∷◌, ◌++◌, append_assoc,
  String, take, arith, append-nil, if◌then◌else◌,
}
use Prim.Native.String.{◌++◌ as str_append}
use tournament_platform_sdd.Exec.{Result, ok, err, failed, connection_error}
use tournament_platform_sdd.Json.{Wire}
use tournament_platform_sdd.Models.{World}
use tournament_platform_sdd.Events.Consumer.{
  Message, Process, Handler, backoff_seconds, attempts, back_off, try_attempts, send_dead_letter,
  handle_with_retry, settle, tried,
}

module _ (wire : Wire) (dlq_accepts : String → wire.Bytes → Bool) (handler : Handler wire) where
  -- The database after `n` calls of the handler on one message.
  abbrev pub after : ℕ → Message wire → World → World
  after zero msg w = w
  after (suc n) msg w = after n msg (handler msg w).1

  -- The first `n` of these calls raise what `except Exception` catches.
  abbrev pub Fails : ℕ → Message wire → World → Type 0
  Fails zero msg w = Unit
  Fails (suc n) msg w = (failed (handler msg w).0 ≡ true) × Fails n msg (handler msg w).1

  tried-ok :
      (msg : Message wire) (p : Process wire) (later : Result Bool × Process wire)
      (x : Result (Unit {0}) × World)
      → x.0 ≡ ok tt
      → tried wire dlq_accepts handler x p later ≡ (ok true, record p { world = x.1 })
  tried-ok msg p later (ok u, w) h = refl
  tried-ok msg p later (err e, w) h = cc

  tried-fails :
      (msg : Message wire) (p : Process wire) (later : Result Bool × Process wire)
      (x : Result (Unit {0}) × World)
      → failed x.0 ≡ true
      → tried wire dlq_accepts handler x p later ≡ later
  tried-fails msg p later (ok u, w) h = cc
  tried-fails msg p later (err e, w) h = rw h refl

  attempt-ok :
      (attempt : ℕ) (rest : List ℕ) (msg : Message wire) (p : Process wire)
      → (handler msg p.world).0 ≡ ok tt
      → try_attempts wire dlq_accepts handler (attempt ∷ rest) msg p
        ≡ (ok true, record p { world = (handler msg p.world).1 })
  unfolding try_attempts
  attempt-ok attempt rest msg p h = tried-ok msg p _ (handler msg p.world) h

  attempt-fails :
      (attempt : ℕ) (rest : List ℕ) (msg : Message wire) (p : Process wire)
      → failed (handler msg p.world).0 ≡ true
      → try_attempts wire dlq_accepts handler (attempt ∷ rest) msg p
        ≡ try_attempts wire dlq_accepts handler rest msg
            (back_off wire dlq_accepts handler attempt (handler msg p.world).1 p)
  unfolding try_attempts
  attempt-fails attempt rest msg p h = tried-fails msg p _ (handler msg p.world) h

  -- The process after `n` failed attempts.
  abbrev waited : ℕ → Message wire → Process wire → Process wire
  waited n msg p = record p {
    world = after n msg p.world;
    slept = p.slept ++ take n backoff_seconds;
  }

  fail_one :
      (msg : Message wire) (p : Process wire)
      → Fails 1 msg p.world
      → try_attempts wire dlq_accepts handler attempts msg p
        ≡ try_attempts wire dlq_accepts handler (1 ∷ 2 ∷ 3 ∷ []) msg (waited 1 msg p)
  unfolding back_off
  fail_one msg p h = attempt-fails 0 (1 ∷ 2 ∷ 3 ∷ []) msg p h.0

  fail_two :
      (msg : Message wire) (p : Process wire)
      → Fails 2 msg p.world
      → try_attempts wire dlq_accepts handler attempts msg p
        ≡ try_attempts wire dlq_accepts handler (2 ∷ 3 ∷ []) msg (waited 2 msg p)
  unfolding back_off
  fail_two msg p h =
      fail_one msg p (h.0, tt)
      ∙ attempt-fails 1 (2 ∷ 3 ∷ []) msg (waited 1 msg p) h.1.0
      ∙ simp append_assoc

  fail_three :
      (msg : Message wire) (p : Process wire)
      → Fails 3 msg p.world
      → try_attempts wire dlq_accepts handler attempts msg p
        ≡ try_attempts wire dlq_accepts handler (3 ∷ []) msg (waited 3 msg p)
  unfolding back_off
  fail_three msg p h =
      fail_two msg p (h.0, (h.1.0, tt))
      ∙ attempt-fails 2 (3 ∷ []) msg (waited 2 msg p) h.1.1.0
      ∙ simp append_assoc

  fail_four :
      (msg : Message wire) (p : Process wire)
      → Fails 4 msg p.world
      → try_attempts wire dlq_accepts handler attempts msg p
        ≡ (ok false, record (waited 3 msg p) { world = after 4 msg p.world })
  unfolding back_off try_attempts
  fail_four msg p h =
      fail_three msg p (h.0, (h.1.0, (h.1.1.0, tt)))
      ∙ attempt-fails 3 [] msg (waited 3 msg p) h.1.1.1.0

  succeed :
      (n : ℕ) (msg : Message wire) (p : Process wire)
      → n ≤ 3
      → Fails n msg p.world
      → (handler msg (after n msg p.world)).0 ≡ ok tt
      → try_attempts wire dlq_accepts handler attempts msg p
        ≡ (ok true, record (waited n msg p) { world = after (suc n) msg p.world })
  succeed zero msg p le h e = attempt-ok 0 (1 ∷ 2 ∷ 3 ∷ []) msg p e ∙ simp append-nil
  succeed (suc zero) msg p le h e =
      fail_one msg p h ∙ attempt-ok 1 (2 ∷ 3 ∷ []) msg (waited 1 msg p) e
  succeed (suc (suc zero)) msg p le h e =
      fail_two msg p h ∙ attempt-ok 2 (3 ∷ []) msg (waited 2 msg p) e
  succeed (suc (suc (suc zero))) msg p le h e =
      fail_three msg p h ∙ attempt-ok 3 [] msg (waited 3 msg p) e
  succeed (suc (suc (suc (suc n)))) msg p le h e = absurd (omega arith)

  -- If the handler raises an `Exception` `n` times, at most three, and then returns, `handle_with_retry` returns
  -- with the database as that call left it. It has slept the first `n` of 1, 2 and 4 seconds, and
  -- has sent nothing to a dead-letter topic and committed nothing.
  pub handle_with_retry_recovers :
      (n : ℕ) (msg : Message wire) (p : Process wire)
      → n ≤ 3
      → Fails n msg p.world
      → (handler msg (after n msg p.world)).0 ≡ ok tt
      → handle_with_retry wire dlq_accepts handler msg p ≡ (
        ok tt,
        record p { world = after (suc n) msg p.world; slept = p.slept ++ take n backoff_seconds },
      )
  unfolding handle_with_retry
  handle_with_retry_recovers n msg p le h e =
      ap (settle wire dlq_accepts handler msg) (succeed n msg p le h e)

  -- If four calls of the handler raise an `Exception`, there is no fifth: after 1, 2 and 4 seconds of sleep the
  -- value of the message is sent to the dead-letter topic of its topic; where that topic does not
  -- take it, the exception of the producer is raised.
  pub handle_with_retry_exhausted :
      (msg : Message wire) (p : Process wire)
      → Fails 4 msg p.world
      → let p' = record p { world = after 4 msg p.world; slept = p.slept ++ 1 ∷ 2 ∷ 4 ∷ [] } in
        let dlq = str_append msg.topic ".dlq" in
        handle_with_retry wire dlq_accepts handler msg p ≡ (
          if dlq_accepts dlq msg.value
          then (ok tt, record p' { dead_letters = p.dead_letters ++ (dlq, msg.value) ∷ [] })
          else (err connection_error, p'))
  unfolding handle_with_retry send_dead_letter
  handle_with_retry_exhausted msg p h = ap (settle wire dlq_accepts handler msg) (fail_four msg p h)
