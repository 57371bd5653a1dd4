-- ===== src/Consumers/Idempotent.antt =====
-- A message that is delivered twice to notification_consumer.py or log_consumer.py of
-- django-api/app/consumers has no second effect.
use tournament_platform_sdd.Base.{
  ℕ, ◌≡◌, refl, Bool, true, false, Bool-cases, inl, inr, ltb, ◌==◌, ◌&&◌, ◌||◌, str_eq_iff, [], ◌∷◌,
  ◌++◌, any, any-append, any-last, arith, Option-cases, none, some, String,
}
use tournament_platform_sdd.Exec.{ok, err, integrity_error, json_decode_error}
use tournament_platform_sdd.Exec.Repeat.{
  IsPreorder, Repeats, Grows, Grows-lift, Grows-or_raise, Repeats-lift, Repeats-or_raise,
  Grows-bind, Repeats-bind,
}
use Prim.Native.String.{count}
use tournament_platform_sdd.Json.{Json, Wire}
use tournament_platform_sdd.Runtime.{Runtime}
use tournament_platform_sdd.Models.{World, NotificationLog}
use tournament_platform_sdd.Events.Consumer.{Message}
use tournament_platform_sdd.Consumers.Handlers.{
  is_notified, create_notification_log, notify_team, payload_of, notify_value,
  notify_match_finished, is_logged, handle_event, create_event_log, is_null,
}

-- Whoever was notified in the first state is so in the second.
pub record RemembersNotified (s t : World) : Type 0 where
  pub still : (m k : ℕ) → is_notified m k s ≡ true → is_notified m k t ≡ true

RemembersNotified-preorder : IsPreorder RemembersNotified
RemembersNotified-preorder = record {
  reflexive = λ s. record { still = λ m k h. h };
  transitive = λ s t u h g. record { still = λ m k n. g.still m k (h.still m k n) };
}

-- What `notify_team` does on each of its branches.
pub notify_team-again :
    (m k : ℕ) (w : World) → is_notified m k w ≡ true → notify_team m k w ≡ (ok tt, w)
unfolding notify_team
notify_team-again m k w h = rw h

-- The row of the log that a notification leaves.
abbrev notification_row : ℕ → ℕ → World → NotificationLog
notification_row m k w = record { match_id = m; team_id = k; sent_at = w.now }

-- The foreign keys of the row name rows.
abbrev pub is_known : ℕ → ℕ → World → Bool
is_known m k w = any (λ x. x.id == m) w.matches && any (λ t. t.id == k) w.teams

abbrev pub notified_world : ℕ → ℕ → World → World
notified_world m k w = record w {
  notified = w.notified ++ (m, k) ∷ [];
  notification_log = w.notification_log ++ notification_row m k w ∷ [];
}

pub notify_team-new :
    (m k : ℕ) (w : World)
    → is_notified m k w ≡ false
    → is_known m k w ≡ true
    → notify_team m k w ≡ (ok tt, notified_world m k w)
unfolding notify_team create_notification_log
notify_team-new m k w new known = rw new (rw known)

pub notify_team-unknown :
    (m k : ℕ) (w : World)
    → is_notified m k w ≡ false
    → is_known m k w ≡ false
    → notify_team m k w ≡ (err integrity_error, record w { notified = w.notified ++ (m, k) ∷ [] })
unfolding notify_team create_notification_log
notify_team-unknown m k w new unknown = rw new (rw unknown)

is_notified-notified_world :
    (m k m' k' : ℕ) (w : World)
    → is_notified m' k' (notified_world m k w)
      ≡ (is_notified m' k' w || (m == m' && k == k' || false))
is_notified-notified_world m k m' k' w =
    any-append _ w.notification_log (notification_row m k w ∷ [])

pub notify_team-remembers : (m k : ℕ) → Grows RemembersNotified (notify_team m k)
notify_team-remembers m k = record {
  at = λ w. elim (Bool-cases (is_notified m k w)) [
    | inl sent ↦ rw (notify_team-again m k w sent) (record { still = λ m' k' h. h })
    | inr new ↦ elim (Bool-cases (is_known m k w)) [
      | inl known ↦
          rw (notify_team-new m k w new known)
            (record { still = λ m' k' h. rw (is_notified-notified_world m k m' k' w, h) refl })
      | inr unknown ↦ rw (notify_team-unknown m k w new unknown) (record { still = λ m' k' h. h })
    ]
  ];
}

pub notify_team-notifies :
    (m k : ℕ) (w : World)
    → (notify_team m k w).0 ≡ ok tt
    → is_notified m k (notify_team m k w).1 ≡ true
notify_team-notifies m k w h = elim (Bool-cases (is_notified m k w)) [
  | inl sent ↦ rw (notify_team-again m k w sent) sent
  | inr new ↦ elim (Bool-cases (is_known m k w)) [
    | inl known ↦
        rw (notify_team-new m k w new known)
          (rw (is_notified-notified_world m k m k w) (ground arith))
    | inr unknown ↦ cc (rw (notify_team-unknown m k w new unknown) at h)
  ]
]

notify_team-Repeats : (m k : ℕ) → Repeats RemembersNotified (notify_team m k)
notify_team-Repeats m k = record {
  at = λ s t a h x. notify_team-again m k t (x.still m k (notify_team-notifies m k s h));
}

ruleset notify_rules = (
  Repeats-bind, Repeats-lift, Repeats-or_raise, Grows-bind, Grows-lift, Grows-or_raise,
  RemembersNotified-preorder, notify_team-Repeats, notify_team-remembers,
)

module _ (wire : Wire) where
  payload_of-Repeats :
      {Extends : World → World → Type 0} (order : IsPreorder Extends) (msg : Message wire)
      → Repeats Extends (payload_of wire msg)
  unfolding payload_of
  payload_of-Repeats order msg = search (Repeats-or_raise, order)

  notify_value-Repeats : (m k : Json) → Repeats RemembersNotified (notify_value wire m k)
  unfolding notify_value
  notify_value-Repeats m k = search notify_rules depth 10

  notify_value-remembers : (m k : Json) → Grows RemembersNotified (notify_value wire m k)
  unfolding notify_value
  notify_value-remembers m k = search notify_rules depth 10

  notify-Repeats : (msg : Message wire) → Repeats RemembersNotified (notify_match_finished wire msg)
  unfolding notify_match_finished
  notify-Repeats msg =
      search (notify_rules, payload_of-Repeats, notify_value-Repeats, notify_value-remembers) depth
        12

  -- Once the notification consumer has handled a message, handling it again returns, sends nothing
  -- and changes nothing.
  pub notify_match_finished_twice :
      (msg : Message wire) (w : World)
      → (notify_match_finished wire msg w).0 ≡ ok tt
      → let w' = (notify_match_finished wire msg w).1 in
        notify_match_finished wire msg w' ≡ (ok tt, w')
  notify_match_finished_twice msg w h =
      (notify-Repeats msg).at w (notify_match_finished wire msg w).1 tt h
        (RemembersNotified-preorder.reflexive (notify_match_finished wire msg w).1)

  -- The state after an event was logged.
  abbrev logged_world : Message wire → Json → World → World
  logged_world msg payload w = record w {
    event_log =
        w.event_log ++ record { topic = msg.topic; payload = payload; received_at = w.now } ∷ [];
  }

  handle_event-logged :
      (msg : Message wire) (payload : Json) (w : World)
      → wire.loads msg.value ≡ some payload
      → is_logged wire msg.topic payload w ≡ true
      → handle_event wire msg w ≡ (ok tt, w)
  unfolding handle_event payload_of
  handle_event-logged msg payload w read logged = rw read (rw logged)

  handle_event-new :
      (msg : Message wire) (payload : Json) (w : World)
      → wire.loads msg.value ≡ some payload
      → is_logged wire msg.topic payload w ≡ false
      → handle_event wire msg w ≡ create_event_log wire msg.topic payload w
  unfolding handle_event payload_of
  handle_event-new msg payload w read new = rw read (rw new)

  -- A row that is refused leaves the log alone.
  create_event_log-done :
      (msg : Message wire) (payload : Json) (w : World)
      → (create_event_log wire msg.topic payload w).0 ≡ ok tt
      → create_event_log wire msg.topic payload w ≡ (ok tt, logged_world msg payload w)
  unfolding create_event_log
  create_event_log-done msg payload w h = elim (Bool-cases (is_null wire payload)) [
    | inl null_ ↦ cc (rw null_ at h)
    | inr value ↦ elim (Bool-cases (ltb 200 (count msg.topic))) [
      | inl long ↦ cc (rw (value, long) at h)
      | inr short ↦ rw (value, short) refl
    ]
  ]

  handle_event-undecoded :
      (msg : Message wire) (w : World)
      → wire.loads msg.value ≡ none
      → handle_event wire msg w ≡ (err json_decode_error, w)
  unfolding handle_event payload_of
  handle_event-undecoded msg w unread = rw unread

  is_logged-logged_world :
      (msg : Message wire) (payload : Json) (w : World)
      → is_logged wire msg.topic payload (logged_world msg payload w) ≡ true
  is_logged-logged_world msg payload w =
      any-last _ w.event_log
        (rw ((str_eq_iff msg.topic msg.topic).1 refl, wire.same_json-refl payload))

  -- Once the log consumer has handled a message, handling it again returns and logs nothing.
  pub handle_event_twice :
      (msg : Message wire) (w : World)
      → (handle_event wire msg w).0 ≡ ok tt
      → let w' = (handle_event wire msg w).1 in handle_event wire msg w' ≡ (ok tt, w')
  handle_event_twice msg w h = elim (Option-cases (wire.loads msg.value)) [
    | inl unread ↦ cc (rw (handle_event-undecoded msg w unread) at h)
    | inr (payload, read) ↦ elim (Bool-cases (is_logged wire msg.topic payload w)) [
      | inl logged ↦
          rw (handle_event-logged msg payload w read logged)
            (handle_event-logged msg payload w read logged)
      | inr new ↦
          let e = handle_event-new msg payload w read new in
          let done = create_event_log-done msg payload w (rw e at h) in
          rw (e, done)
            (handle_event-logged msg payload (logged_world msg payload w) read
              (is_logged-logged_world msg payload w))
    ]
  ]
