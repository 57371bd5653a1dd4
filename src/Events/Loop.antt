-- ===== src/Events/Loop.antt =====
-- `consume_loop` of django-api/app/events/consumer_base.py: which messages it commits.
use tournament_platform_sdd.Base.{
  ℕ, ◌≡◌, refl, ap, Bool-cases, inl, inr, ◌∙◌, Bool, true, false, List, [], ◌∷◌, ◌++◌, String,
  arith,
}
use tournament_platform_sdd.Exec.{continue, is_exception, Error, Result, ok, err}
use Prim.Native.String.{◌++◌ as str_append}
use tournament_platform_sdd.Models.{World}
use tournament_platform_sdd.Json.{Wire}
use tournament_platform_sdd.Events.Consumer.{
  Message, Poll, Process, Handler, attempts, back_off, try_attempts, send_dead_letter,
  handle_with_retry, settle, tried, leave_or, commit, consume_loop,
}

module _ (wire : Wire) where
  -- The messages that are polled before the process is interrupted.
  abbrev pub delivered : List (Poll wire) → List (Message wire)
  delivered [] = []
  delivered (Poll.timeout ∷ polls) = delivered polls
  delivered (Poll.failure ∷ polls) = delivered polls
  delivered (Poll.interrupt ∷ polls) = []
  delivered (Poll.received msg ∷ polls) = msg ∷ delivered polls

  -- The process is interrupted.
  abbrev pub interrupted : List (Poll wire) → Bool
  interrupted [] = false
  interrupted (Poll.timeout ∷ polls) = interrupted polls
  interrupted (Poll.failure ∷ polls) = interrupted polls
  interrupted (Poll.interrupt ∷ polls) = true
  interrupted (Poll.received msg ∷ polls) = interrupted polls

  module _ (dlq_accepts : String → wire.Bytes → Bool) (handler : Handler wire) where
    tried-committed :
        (x : Result (Unit {0}) × World) (p : Process wire) (later : Result Bool × Process wire)
        → (later.1.committed ≡ p.committed) × (later.1.closed ≡ p.closed)
        → let p' = (tried wire dlq_accepts handler x p later).1 in
          (p'.committed ≡ p.committed) × (p'.closed ≡ p.closed)
    tried-committed (ok u, w) p later h = (refl, refl)
    tried-committed (err e, w) p later h = elim (Bool-cases (is_exception e)) [
      | inl caught ↦ rw caught h
      | inr escaped ↦ rw escaped (refl, refl)
    ]

    back_off-committed :
        (attempt : ℕ) (w : World) (p : Process wire)
        → let p' = back_off wire dlq_accepts handler attempt w p in
          (p'.committed ≡ p.committed) × (p'.closed ≡ p.closed)
    unfolding back_off
    back_off-committed attempt w p = ground arith

    -- Handling a message leaves the offsets alone.
    try_attempts-committed :
        (rest : List ℕ) (msg : Message wire) (p : Process wire)
        → let p' = (try_attempts wire dlq_accepts handler rest msg p).1 in
          (p'.committed ≡ p.committed) × (p'.closed ≡ p.closed)
    unfolding try_attempts
    try_attempts-committed [] msg p = (refl, refl)
    try_attempts-committed (attempt ∷ rest) msg p =
        let w = (handler msg p.world).1 in
        let (offsets, open_) = back_off-committed attempt w p in
        let (offsets', open') =
          try_attempts-committed rest msg (back_off wire dlq_accepts handler attempt w p) in
        tried-committed (handler msg p.world) p _ (offsets' ∙ offsets, open' ∙ open_)

    settle-committed :
        (msg : Message wire) (x : Result Bool × Process wire)
        → let p' = (settle wire dlq_accepts handler msg x).1 in
          (p'.committed ≡ x.1.committed) × (p'.closed ≡ x.1.closed)
    unfolding send_dead_letter
    settle-committed msg (ok true, p) = (refl, refl)
    settle-committed msg (ok false, p) = ground arith
    settle-committed msg (err e, p) = (refl, refl)

    handle_with_retry-committed :
        (msg : Message wire) (p : Process wire)
        → let p' = (handle_with_retry wire dlq_accepts handler msg p).1 in
          (p'.committed ≡ p.committed) × (p'.closed ≡ p.closed)
    unfolding handle_with_retry
    handle_with_retry-committed msg p =
        let (offsets, open_) = try_attempts-committed attempts msg p in
        let (offsets', open') =
          settle-committed msg (try_attempts wire dlq_accepts handler attempts msg p) in
        (offsets' ∙ offsets, open' ∙ open_)

    module _ (commit_accepts : Message wire → Bool) where
      -- The process after a message was handled and committed.
      abbrev next : Message wire → Process wire → Process wire
      next msg p =
          let p' = (handle_with_retry wire dlq_accepts handler msg p).1 in
          record p' { committed = p'.committed ++ msg ∷ [] }

      handled-raised :
          (msg : Message wire) (x : Result (Unit {0}) × Process wire) {e : Error}
          → x.0 ≡ err e
          → continue x.0 (λ u. commit wire dlq_accepts handler commit_accepts msg) x.1
            ≡ (err e, x.1)
      handled-raised msg (ok u, p) h = cc
      handled-raised msg (err e, p) h = ap (λ r. (r, p)) h

      -- A message whose handling raises stops the consumer, be it that its attempts and the
      -- dead-letter topic failed or that the handler exits: the exception leaves the loop, the
      -- consumer is closed, and neither this message nor a later one is committed.
      pub consume_loop_crash :
          (msg : Message wire) (polls : List (Poll wire)) (p : Process wire) {e : Error}
          → (handle_with_retry wire dlq_accepts handler msg p).0 ≡ err e
          → let (r, p') =
              consume_loop wire dlq_accepts handler commit_accepts (Poll.received msg ∷ polls) p in
            (r ≡ err e) × (p'.committed ≡ p.committed) × (p'.closed ≡ true)
      unfolding consume_loop
      consume_loop_crash msg polls p h =
          let stopped =
            ap
              (λ x.
                leave_or wire dlq_accepts handler commit_accepts x
                  (consume_loop wire dlq_accepts handler commit_accepts polls x.1))
              (handled-raised msg (handle_with_retry wire dlq_accepts handler msg p) h) in
          rw stopped (refl, (handle_with_retry-committed msg p).0, refl)
