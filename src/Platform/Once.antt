-- ===== src/Platform/Once.antt =====
-- No match is rated twice for one team, and no team is notified twice of one match, in every state
-- that the platform comes to.
use tournament_platform_sdd.Base.{
  ℕ, ℤ, ◌≤◌, ◌≡◌, true, false, subst, sym, ◌++◌, [], ◌∷◌, List, String, any, count_where, arith,
  ◌==◌, ◌&&◌, count_where-append, Bool-cases, inl, inr,
}
use tournament_platform_sdd.Exec.Rules.{Keeps, Keeps-atomic}
use tournament_platform_sdd.Exec.{atomic}
use tournament_platform_sdd.Floats.{PyFloat}
use tournament_platform_sdd.Teams.Service.{rate_teams}
use tournament_platform_sdd.Json.{Json, Wire}
use tournament_platform_sdd.Models.{World, User, Match, TeamEloHistory, NotificationLog}
use tournament_platform_sdd.Models.Tables.{
  save_team_elo, create_team_history, save_match, has_team_history,
}
use tournament_platform_sdd.Runtime.{Runtime}
use tournament_platform_sdd.Events.{publish_event}
use tournament_platform_sdd.Teams.Steps.{rate_teams-Keeps, update_elo-Keeps}
use tournament_platform_sdd.Consumers.Handlers.{notify_team, create_notification_log, is_notified}
use tournament_platform_sdd.Views.MatchCreation.{MatchData, create_match}
use tournament_platform_sdd.Views.Teams.{insert_team}
use tournament_platform_sdd.Platform.{Reach}
use tournament_platform_sdd.Platform.Outside.{always_saved, kept_by_writes, event_published}
use tournament_platform_sdd.Platform.Steps.{IsKeptByWrites, Reach-Keeps}

-- Rows with a pair of numbers as their key: none is there twice.
module _ {A : Type 0} (first second : A → ℕ) where
  abbrev pub occurrences : ℕ → ℕ → List A → ℕ
  occurrences a b = count_where (λ x. first x == a && second x == b)

  abbrev pub IsOnce : List A → Type 0
  IsOnce xs = (a b : ℕ) → occurrences a b xs ≤ 1

  occurrences_new :
      (a b : ℕ) (x : A) (xs : List A)
      → any (λ y. first y == first x && second y == second x) xs ≡ false
      → (first x == a && second x == b) ≡ true
      → occurrences a b xs ≡ 0
  occurrences_new a b x [] new same = omega arith
  occurrences_new a b x (y ∷ ys) new same = ground (arith, occurrences_new a b x ys)

  -- A row with a new key may be added.
  IsOnce-last :
      (x : A) (xs : List A)
      → any (λ y. first y == first x && second y == second x) xs ≡ false
      → IsOnce xs
      → IsOnce (xs ++ x ∷ [])
  IsOnce-last x xs new once a b = elim (Bool-cases (first x == a && second x == b)) [
    | inl same ↦
        rw (count_where-append (λ y. first y == a && second y == b) xs (x ∷ []), same)
          (omega (arith, occurrences_new a b x xs new same))
    | inr other ↦
        rw (count_where-append (λ y. first y == a && second y == b) xs (x ∷ []), other)
          (omega (arith, once a b))
  ]

-- The unique constraints of the history of the teams' ratings and of the notifications.
pub record HasNoTwice (w : World) : Type 0 where
  pub ratings : IsOnce (λ (h : TeamEloHistory). h.team_id) (λ h. h.match_id) w.team_elo_history
  pub notifications :
      IsOnce (λ (n : NotificationLog). n.match_id) (λ n. n.team_id) w.notification_log

HasNoTwice-respects :
    (s w : World)
    → w.team_elo_history ≡ s.team_elo_history
    → w.notification_log ≡ s.notification_log
    → HasNoTwice s
    → HasNoTwice w
HasNoTwice-respects s w ratings notifications h = record {
  ratings = subst (IsOnce (λ h. h.team_id) (λ h. h.match_id)) (sym ratings) h.ratings;
  notifications =
      subst (IsOnce (λ n. n.match_id) (λ n. n.team_id)) (sym notifications) h.notifications;
}

create_team_history-HasNoTwice :
    (team match_id : ℕ) (before after : ℤ)
    → Keeps HasNoTwice (create_team_history team match_id before after)
unfolding create_team_history
create_team_history-HasNoTwice team match_id before after = record {
  at = λ w h. elim (Bool-cases (has_team_history team match_id w.team_elo_history)) [
    | inl seen ↦ rw seen h
    | inr new ↦ rw new (record {
      ratings =
          IsOnce-last _ _
            (record {
              team_id = team;
              match_id = match_id;
              elo_before = before;
              elo_after = after;
              created_at = w.now;
            })
            w.team_elo_history new h.ratings;
      notifications = h.notifications;
    })
  ];
}

notify_team-HasNoTwice : (match_id team_id : ℕ) → Keeps HasNoTwice (notify_team match_id team_id)
unfolding notify_team create_notification_log
notify_team-HasNoTwice match_id team_id = record {
  at = λ w h. elim (Bool-cases (is_notified match_id team_id w)) [
    | inl sent ↦ rw sent h
    | inr new ↦
        elim (Bool-cases
          (any (λ m. m.id == match_id) w.matches && any (λ t. t.id == team_id) w.teams)) [
            | inl known ↦ rw new (
                rw known (record {
                  ratings = h.ratings;
                  notifications =
                      IsOnce-last (λ n. n.match_id) (λ n. n.team_id)
                        (record { match_id = match_id; team_id = team_id; sent_at = w.now })
                        w.notification_log new h.notifications;
                }))
            | inr unknown ↦
                rw new
                  (rw unknown (record { ratings = h.ratings; notifications = h.notifications }))
          ]
  ];
}

save_team_elo-HasNoTwice : (k : ℕ) (elo : ℤ) → Keeps HasNoTwice (save_team_elo k elo)
unfolding save_team_elo
save_team_elo-HasNoTwice k elo = record {
  at = λ w. HasNoTwice-respects w (save_team_elo k elo w).1 (ground arith) (ground arith);
}

pub save_match-HasNoTwice : (m : Match) → Keeps HasNoTwice (save_match m)
unfolding save_match
save_match-HasNoTwice m = record {
  at = λ w. HasNoTwice-respects w (save_match m w).1 (ground arith) (ground arith);
}

create_match-HasNoTwice : (request : MatchData) → Keeps HasNoTwice (create_match request)
unfolding create_match
create_match-HasNoTwice request = record {
  at = λ w. HasNoTwice-respects w (create_match request w).1 (ground arith) (ground arith);
}

insert_team-HasNoTwice : (u : User) (name : String) → Keeps HasNoTwice (insert_team u name)
unfolding insert_team
insert_team-HasNoTwice u name = record {
  at = λ w. HasNoTwice-respects w (insert_team u name w).1 (ground arith) (ground arith);
}

pub rate_teams-HasNoTwice : (fl : PyFloat) (m : Match) → Keeps HasNoTwice (atomic (rate_teams fl m))
rate_teams-HasNoTwice fl m =
    Keeps-atomic (rate_teams fl m)
      (rate_teams-Keeps save_team_elo-HasNoTwice create_team_history-HasNoTwice fl m)

pub writes-HasNoTwice : (wire : Wire) (rt : Runtime) → IsKeptByWrites wire rt HasNoTwice
writes-HasNoTwice wire rt =
    kept_by_writes (λ s w e. HasNoTwice-respects s w e.history e.notifications) wire rt
      (update_elo-Keeps save_team_elo-HasNoTwice create_team_history-HasNoTwice rt.floats)
      (always_saved (λ m plays. save_match-HasNoTwice m)) create_match-HasNoTwice
      notify_team-HasNoTwice insert_team-HasNoTwice

pub publish_event-HasNoTwice :
    (rt : Runtime) (topic : String) (payload : Json)
    → Keeps HasNoTwice (publish_event rt topic payload)
publish_event-HasNoTwice =
    event_published (λ s w e. HasNoTwice-respects s w e.history e.notifications)

-- Whatever requests and events the platform serves: the history has at most one row for a team and
-- a match, and at most one notification is logged for a match and a team, if this was so at the
-- start.
pub Reach-HasNoTwice :
    (wire : Wire) (rt : Runtime) {v w : World} → Reach wire rt v w → HasNoTwice v → HasNoTwice w
Reach-HasNoTwice wire rt = Reach-Keeps wire rt (writes-HasNoTwice wire rt)
