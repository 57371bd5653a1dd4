-- ===== src/Consumers/Handlers.antt =====
-- `handle_match_finished` of ranking_consumer.py and of notification_consumer.py, and
-- `handle_event` of log_consumer.py, in django-api/app/consumers.
use tournament_platform_sdd.Base.{
  ℕ, Bool, true, false, ltb, Bool-cases, inl, inr, ◌==◌, ◌&&◌, if◌then◌else◌, str_eq, [], ◌∷◌, ◌++◌,
  any, String,
}
use tournament_platform_sdd.Exec.{
  Exec, ok, err, pure, lift, gets, or_raise, modify, ◌>>=◌, ◌>>◌, json_decode_error, value_error,
  integrity_error, data_error,
}
use tournament_platform_sdd.Exec.Rules.{Keeps}
use Prim.Native.String.{count}
use tournament_platform_sdd.Json.{Json, Wire, subscript}
use tournament_platform_sdd.Models.{World}
use tournament_platform_sdd.Floats.{PyFloat}
use tournament_platform_sdd.Events.Consumer.{Message}
use tournament_platform_sdd.Tournaments.UserRating.{update_team_elo_by_match_id}

-- `EloHistory.objects.filter(match_id=match_id).exists()`, of apps/users
abbrev pub is_user_rated : ℕ → World → Bool
is_user_rated match_id w = any (λ h. h.match_id == match_id) w.user_elo_history

-- `NotificationLog.objects.filter(match_id=match_id, team_id=team_id).exists()`
abbrev pub is_notified : ℕ → ℕ → World → Bool
is_notified match_id team_id w =
    any (λ n. n.match_id == match_id && n.team_id == team_id) w.notification_log

-- `_send_notification`
abbrev send_notification : ℕ → ℕ → World → World
send_notification match_id team_id w = record w {
  notified = w.notified ++ (match_id, team_id) ∷ [];
}

-- `NotificationLog.objects.create`: both foreign keys must name rows; that the pair is new has just
-- been tested.
unfoldable pub create_notification_log : ℕ → ℕ → Exec World (Unit {0})
create_notification_log match_id team_id w =
    if any (λ m. m.id == match_id) w.matches && any (λ t. t.id == team_id) w.teams
    then (
      ok tt,
      record w {
        notification_log =
            w.notification_log
            ++ record { match_id = match_id; team_id = team_id; sent_at = w.now } ∷ [];
      },
    )
    else (err integrity_error, w)

-- One round of the loop over the two teams.
unfoldable pub notify_team : ℕ → ℕ → Exec World (Unit {0})
notify_team match_id team_id = do
  sent ← gets (is_notified match_id team_id)
  if sent
      then pure tt
      else do modify (send_notification match_id team_id); create_notification_log match_id team_id

module _ (wire : Wire) where
  open wire use {loads, id_of, same_json}

  -- `json.loads(msg.value())`
  unfoldable pub payload_of : Message wire → Exec World Json
  payload_of msg = or_raise (loads msg.value) json_decode_error

  module _ (fl : PyFloat) where
    -- ranking_consumer.py
    unfoldable pub rank_match_finished : Message wire → Exec World (Unit {0})
    rank_match_finished msg = do
      payload ← payload_of msg
      match_value ← lift (subscript payload "match_id")
      match_id ← or_raise (id_of match_value) value_error
      rated ← gets (is_user_rated match_id)
      if rated then pure tt else update_team_elo_by_match_id fl match_id

  -- One round of the loop over the teams, on the values of the payload.
  unfoldable pub notify_value : Json → Json → Exec World (Unit {0})
  notify_value match_value team_value = do
    match_id ← or_raise (id_of match_value) value_error
    team_id ← or_raise (id_of team_value) value_error
    notify_team match_id team_id

  -- notification_consumer.py
  unfoldable pub notify_match_finished : Message wire → Exec World (Unit {0})
  notify_match_finished msg = do
    payload ← payload_of msg
    match_id ← lift (subscript payload "match_id")
    team_a_id ← lift (subscript payload "team_a_id")
    team_b_id ← lift (subscript payload "team_b_id")
    notify_value match_id team_a_id
    notify_value match_id team_b_id

  abbrev pub is_null : Json → Bool
  is_null Json.null = true
  is_null _ = false

  -- `EventLog.objects.filter(topic=topic, payload=payload).exists()`
  abbrev pub is_logged : String → Json → World → Bool
  is_logged topic payload w =
      any (λ e. str_eq e.topic topic && same_json e.payload payload) w.event_log

  -- `EventLog.objects.create`: the value `null` becomes SQL's NULL, which the column of the payload
  -- refuses, and that of the topic takes 200 characters.
  unfoldable pub create_event_log : String → Json → Exec World (Unit {0})
  create_event_log topic payload w =
      if is_null payload
      then (err integrity_error, w)
      else if ltb 200 (count topic)
      then (err data_error, w)
      else (
        ok tt,
        record w {
          event_log =
              w.event_log ++ record { topic = topic; payload = payload; received_at = w.now } ∷ [];
        },
      )

  -- The log with a new row at its end.
  abbrev pub logged_row : String → Json → World → World
  logged_row topic payload w = record w {
    event_log =
        w.event_log ++ record { topic = topic; payload = payload; received_at = w.now } ∷ [];
  }

  -- What the row of an event keeps, its creation keeps.
  pub create_event_log-Keeps :
      {P : World → Type 0} (topic : String) (payload : Json)
      → ((w : World) → P w → P (logged_row topic payload w))
      → Keeps P (create_event_log topic payload)
  unfolding create_event_log
  create_event_log-Keeps topic payload kept = record {
    at = λ w h. elim (Bool-cases (is_null payload)) [
      | inl null_ ↦ rw null_ h
      | inr value ↦ elim (Bool-cases (ltb 200 (count topic))) [
        | inl long ↦ rw (value, long) h
        | inr short ↦ rw (value, short) (kept w h)
      ]
    ];
  }

  -- log_consumer.py
  unfoldable pub handle_event : Message wire → Exec World (Unit {0})
  handle_event msg = do
    payload ← payload_of msg
    logged ← gets (is_logged msg.topic payload)
    if logged then pure tt else create_event_log msg.topic payload
