-- ===== src/Consumers/Pipeline/Served.antt =====
-- What the consumers of the event `match.finished` need of the state that a report leaves, and what
-- their attempts keep of it.
use tournament_platform_sdd.Base.{
  ℕ, pos, ◌≡◌, refl, ◌∙◌, ap, sym, subst, true, Bool-cases, inl, inr, some, List, [], ◌∷◌, any,
  arith,
}
use tournament_platform_sdd.Exec.{ok, ◌>>◌}
use tournament_platform_sdd.Exec.Rules.{Keeps, Keeps-bind, keeps_rules}
use tournament_platform_sdd.Json.{Json, num, Wire, subscript}
use tournament_platform_sdd.Models.{World, Match}
use tournament_platform_sdd.Models.Tables.{find_match}
use tournament_platform_sdd.Floats.{PyFloat}
use tournament_platform_sdd.Runtime.{Runtime}
use tournament_platform_sdd.Events.Consumer.{Message}
use tournament_platform_sdd.Tournaments.MatchService.{match_payload}
use tournament_platform_sdd.Tournaments.Players.{IsSettled}
use tournament_platform_sdd.Consumers.Handlers.{
  is_notified, create_notification_log, notify_team, notify_value, payload_of,
  notify_match_finished, create_event_log, create_event_log-Keeps, handle_event,
}
use tournament_platform_sdd.Consumers.Idempotent.{
  is_known, notify_team-again, notify_team-new, notify_team-remembers, notify_team-notifies,
}
use tournament_platform_sdd.Consumers.Ranking.{rank-settled, SamePlayers-IsSettled}
use tournament_platform_sdd.Consumers.Pipeline.{
  Consumer, ranking, notification, log, IsRatedAs, is_notification, attempt, consumed,
}

notify_team-IsRatedAs : (s : World) (m k : ℕ) → Keeps (IsRatedAs s) (notify_team m k)
unfolding notify_team create_notification_log
notify_team-IsRatedAs s m k = record { at = λ w h. ground arith }

notify_team-remembers_row : (m k j i : ℕ) → Keeps (λ w. is_notified m k w ≡ true) (notify_team j i)
notify_team-remembers_row m k j i = record {
  at = λ w h. ((notify_team-remembers j i).at w).still m k h;
}

-- Where the foreign keys name rows, a notification is not refused.
notify_team-known : (m k : ℕ) (w : World) → is_known m k w ≡ true → (notify_team m k w).0 ≡ ok tt
notify_team-known m k w known = elim (Bool-cases (is_notified m k w)) [
  | inl sent ↦ rw (notify_team-again m k w sent) refl
  | inr new ↦ rw (notify_team-new m k w new known) refl
]

module _ (wire : Wire) (fl : PyFloat) where
  notify_value-num : (m k : ℕ) → notify_value wire (num (pos m)) (num (pos k)) ≡ notify_team m k
  unfolding notify_value
  notify_value-num m k = rw (wire.id_of-num m, wire.id_of-num k) refl

  log-IsRatedAs : (s : World) (msg : Message wire) → Keeps (IsRatedAs s) (handle_event wire msg)
  unfolding handle_event payload_of
  log-IsRatedAs s msg = search (keeps_rules, logged) depth 10
    where
      logged : (payload : Json) → Keeps (IsRatedAs s) (create_event_log wire msg.topic payload)
      logged payload = create_event_log-Keeps wire msg.topic payload (λ w h. ground arith)

  log-remembers :
      (m k : ℕ) (msg : Message wire) → Keeps (λ w. is_notified m k w ≡ true) (handle_event wire msg)
  unfolding handle_event payload_of
  log-remembers m k msg = search (keeps_rules, logged) depth 10
    where
      logged :
          (payload : Json)
          → Keeps (λ w. is_notified m k w ≡ true) (create_event_log wire msg.topic payload)
      logged payload = create_event_log-Keeps wire msg.topic payload (λ w h. h)

  module _ (rt : Runtime) (m : Match) (msg : Message wire)
      (read : wire.loads msg.value ≡ some (match_payload rt m)) where
    notify-payload :
        (w : World)
        → notify_match_finished wire msg w
          ≡ (notify_team m.id m.team_a_id >> notify_team m.id m.team_b_id) w
    unfolding notify_match_finished payload_of subscript
    notify-payload w =
        rw read (rw (notify_value-num m.id m.team_a_id, notify_value-num m.id m.team_b_id) refl)

    -- Both notifications are there.
    abbrev AreNotified : World → Type 0
    AreNotified w =
        (is_notified m.id m.team_a_id w ≡ true) × (is_notified m.id m.team_b_id w ≡ true)

    -- What the consumers need of the state, and what they keep of it.
    pub record IsServed (s w : World) : Type 0 where
      pub as_reported : IsRatedAs s w
      pub stored : find_match m.id w.matches ≡ some m
      pub settled : IsSettled m w
      pub known_a : is_known m.id m.team_a_id w ≡ true
      pub known_b : is_known m.id m.team_b_id w ≡ true

    IsServed-respects : (s w v : World) → IsRatedAs w v → IsServed s w → IsServed s v
    IsServed-respects s w v same h = record {
      as_reported = record {
        matches = same.matches ∙ h.as_reported.matches;
        users = same.users ∙ h.as_reported.users;
        teams = same.teams ∙ h.as_reported.teams;
        members = same.members ∙ h.as_reported.members;
        user_history = same.user_history ∙ h.as_reported.user_history;
        team_history = same.team_history ∙ h.as_reported.team_history;
      };
      stored = ap (find_match m.id) same.matches ∙ h.stored;
      settled =
          SamePlayers-IsSettled m
            (record { users = same.users; members = same.members; history = same.user_history })
            h.settled;
      known_a = rw (same.matches, same.teams) h.known_a;
      known_b = rw (same.matches, same.teams) h.known_b;
    }

    pub itself : (w : World) → IsRatedAs w w
    itself w = record {
      matches = refl;
      users = refl;
      teams = refl;
      members = refl;
      user_history = refl;
      team_history = refl;
    }

    notify-IsRatedAs : (s : World) → Keeps (IsRatedAs s) (notify_match_finished wire msg)
    notify-IsRatedAs s = record {
      at = λ w h. rw (notify-payload w) (
          (Keeps-bind (notify_team m.id m.team_a_id) _ (notify_team-IsRatedAs s m.id m.team_a_id)
              (λ _. notify_team-IsRatedAs s m.id m.team_b_id)).at
            w h);
    }

    attempt-IsServed :
        (c : Consumer) (s w : World) → IsServed s w → IsServed s (attempt wire fl c msg w)
    unfolding attempt
    attempt-IsServed ranking s w h =
        subst (λ x. IsServed s x.1) (sym (rank-settled wire fl rt msg m w read h.stored h.settled))
          h
    attempt-IsServed notification s w h =
        IsServed-respects s w _ ((notify-IsRatedAs w).at w (itself w)) h
    attempt-IsServed log s w h = IsServed-respects s w _ ((log-IsRatedAs w msg).at w (itself w)) h

    remembers :
        (k : ℕ) (w : World)
        → is_notified m.id k w ≡ true
        → is_notified m.id k (notify_match_finished wire msg w).1 ≡ true
    remembers k w h =
        subst (λ x. is_notified m.id k x.1 ≡ true) (sym (notify-payload w))
          ((Keeps-bind (notify_team m.id m.team_a_id) _
              (notify_team-remembers_row m.id k m.id m.team_a_id)
              (λ _. notify_team-remembers_row m.id k m.id m.team_b_id)).at
            w h)

    attempt-AreNotified :
        (c : Consumer) (s w : World)
        → IsServed s w
        → AreNotified w
        → AreNotified (attempt wire fl c msg w)
    unfolding attempt
    attempt-AreNotified ranking s w h n =
        subst (λ x. AreNotified x.1) (sym (rank-settled wire fl rt msg m w read h.stored h.settled))
          n
    attempt-AreNotified notification s w h n =
        (remembers m.team_a_id w n.0, remembers m.team_b_id w n.1)
    attempt-AreNotified log s w h n = (
      (log-remembers m.id m.team_a_id msg).at w n.0,
      (log-remembers m.id m.team_b_id msg).at w n.1,
    )

    notification-notifies :
        (s w : World) → IsServed s w → AreNotified (attempt wire fl notification msg w)
    unfolding attempt
    notification-notifies s w h =
        let w1 = (notify_team m.id m.team_a_id w).1 in
        let first = notify_team-known m.id m.team_a_id w h.known_a in
        let h1 =
          IsServed-respects s w w1 ((notify_team-IsRatedAs w m.id m.team_a_id).at w (itself w)) h in
        let second = notify_team-known m.id m.team_b_id w1 h1.known_b in
        let both : (notify_team m.id m.team_a_id >> notify_team m.id m.team_b_id) w
            ≡ notify_team m.id m.team_b_id w1 =
          rw first refl in
        subst (λ x. AreNotified x.1) (sym (notify-payload w ∙ both))
          (
            ((notify_team-remembers m.id m.team_b_id).at w1).still m.id m.team_a_id
                (notify_team-notifies m.id m.team_a_id w first),
            notify_team-notifies m.id m.team_b_id w1 second,
          )

    pub consumed-IsServed :
        (cs : List Consumer) (s w : World) → IsServed s w → IsServed s (consumed wire fl cs msg w)
    unfolding consumed
    consumed-IsServed [] s w h = h
    consumed-IsServed (c ∷ cs) s w h =
        consumed-IsServed cs s (attempt wire fl c msg w) (attempt-IsServed c s w h)

    consumed-AreNotified :
        (cs : List Consumer) (s w : World)
        → IsServed s w
        → AreNotified w
        → AreNotified (consumed wire fl cs msg w)
    unfolding consumed
    consumed-AreNotified [] s w h n = n
    consumed-AreNotified (c ∷ cs) s w h n =
        consumed-AreNotified cs s (attempt wire fl c msg w) (attempt-IsServed c s w h)
          (attempt-AreNotified c s w h n)

    pub consumed-notifies :
        (cs : List Consumer) (s w : World)
        → any is_notification cs ≡ true
        → IsServed s w
        → AreNotified (consumed wire fl cs msg w)
    unfolding consumed
    consumed-notifies [] s w some_ h = cc
    consumed-notifies (notification ∷ cs) s w some_ h =
        consumed-AreNotified cs s _ (attempt-IsServed notification s w h)
          (notification-notifies s w h)
    consumed-notifies (ranking ∷ cs) s w some_ h =
        consumed-notifies cs s _ some_ (attempt-IsServed ranking s w h)
    consumed-notifies (log ∷ cs) s w some_ h =
        consumed-notifies cs s _ some_ (attempt-IsServed log s w h)
