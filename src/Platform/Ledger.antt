-- ===== src/Platform/Ledger.antt =====
-- The rating of a team as a ledger: it is the initial rating and the changes that the history of
-- the team's ratings records, in every state that the platform comes to.

use tournament_platform_sdd.Base.{
  ℕ, pos, ◌+ℤ◌, ◌≡◌, refl, sym, ◌∙◌, subst, ap, ◌==◌, Bool-cases, Option-cases, inl, inr, true,
  false, none, some, List, String, [], ◌∷◌, ◌++◌, arith,
}
use tournament_platform_sdd.Exec.{atomic}
use tournament_platform_sdd.Exec.Rules.{Keeps, Result-cases}
use tournament_platform_sdd.Json.{Json, Wire}
use tournament_platform_sdd.Models.{World, User, Match, Team, TeamEloHistory}
use tournament_platform_sdd.Models.Tables.{find_team, save_match}
use tournament_platform_sdd.Runtime.{Runtime}
use tournament_platform_sdd.Events.{publish_event}
use tournament_platform_sdd.Floats.{PyFloat}
use tournament_platform_sdd.Teams.Service.{is_rated, rate_teams, update_elo}
use tournament_platform_sdd.Teams.Idempotent.{update_elo-rated, update_elo-new}
use tournament_platform_sdd.Teams.Inversion.{rate_teams-ok}
use tournament_platform_sdd.Consumers.Handlers.{notify_team, create_notification_log}
use tournament_platform_sdd.Views.MatchCreation.{MatchData, create_match}
use tournament_platform_sdd.Views.Teams.{insert_team, new_team, is_taken_name}
use tournament_platform_sdd.Platform.{Reach}
use tournament_platform_sdd.Platform.Outside.{always_saved, kept_by_writes, event_published}
use tournament_platform_sdd.Platform.Steps.{IsKeptByWrites, Reach-Keeps}
use tournament_platform_sdd.Platform.Balance.{
  some-injective, balance, ledger_elo, IsLedger, IsLedger-respects, after, IsLedger-after,
}

-- Ratings that are written, or rolled back.
pub rate_teams-IsLedger : (fl : PyFloat) (m : Match) → Keeps IsLedger (atomic (rate_teams fl m))
unfolding after
rate_teams-IsLedger fl m = record {
  at = λ w h. elim (Result-cases (rate_teams fl m w).0) [
    | inl (u, returned) ↦
        let (winner, loser, a, b, (winner_row, loser_row, apart, after_)) =
          rate_teams-ok fl m w returned in
        rw returned (
          subst IsLedger (sym after_)
            (IsLedger-after w m.id winner loser a b h winner_row loser_row apart))
    | inr (e, raised) ↦ rw raised h
  ];
}

update_elo-IsLedger : (fl : PyFloat) (m : Match) → Keeps IsLedger (update_elo fl m)
update_elo-IsLedger fl m = record {
  at = λ w h. elim (Bool-cases (is_rated m.id w)) [
    | inl rated ↦ rw (update_elo-rated fl m w rated) h
    | inr new ↦ rw (update_elo-new fl m w new) ((rate_teams-IsLedger fl m).at w h)
  ];
}

pub save_match-IsLedger : (m : Match) → Keeps IsLedger (save_match m)
unfolding save_match
save_match-IsLedger m = record {
  at = λ w. IsLedger-respects w (save_match m w).1 (ground arith) (ground arith) (ground arith);
}

create_match-IsLedger : (request : MatchData) → Keeps IsLedger (create_match request)
unfolding create_match
create_match-IsLedger request = record {
  at = λ w.
      IsLedger-respects w (create_match request w).1 (ground arith) (ground arith) (ground arith);
}

notify_team-IsLedger : (match_id team_id : ℕ) → Keeps IsLedger (notify_team match_id team_id)
unfolding notify_team create_notification_log
notify_team-IsLedger match_id team_id = record {
  at = λ w.
      IsLedger-respects w (notify_team match_id team_id w).1 (ground arith) (ground arith)
        (ground arith);
}

-- What is found once a row is added at the end of the table.
module _ (k : ℕ) (t : Team) where
  find_team-last_known :
      (ts : List Team) {u : Team} → find_team k ts ≡ some u → find_team k (ts ++ t ∷ []) ≡ some u
  find_team-last_known [] known = cc
  find_team-last_known (x ∷ xs) {u} known = ground (arith, find_team-last_known xs {u = u})

  find_team-last_new :
      (ts : List Team)
      → find_team k ts ≡ none
      → (t.id == k) ≡ true
      → find_team k (ts ++ t ∷ []) ≡ some t
  find_team-last_new [] gone new = rw new
  find_team-last_new (x ∷ xs) gone new = ground (arith, find_team-last_new xs)

  find_team-last_other :
      (ts : List Team)
      → find_team k ts ≡ none
      → (t.id == k) ≡ false
      → find_team k (ts ++ t ∷ []) ≡ none
  find_team-last_other [] gone other = rw other
  find_team-last_other (x ∷ xs) gone other = ground (arith, find_team-last_other xs)

ledger_elo-new :
    (k : ℕ) (hs : List TeamEloHistory) → balance k hs ≡ pos 0 → pos 1000 ≡ ledger_elo k hs
unfolding ◌+ℤ◌
ledger_elo-new k hs empty = rw empty refl

-- A new team has the initial rating and no history.
insert_team-IsLedger : (u : User) (name : String) → Keeps IsLedger (insert_team u name)
unfolding insert_team
insert_team-IsLedger u name = record {
  at = λ w h. elim (Bool-cases (is_taken_name name w.teams)) [
    | inl taken ↦ rw taken h
    | inr free ↦ rw free (record {
      rated = λ k {t} found. elim (Option-cases (find_team k w.teams)) [
        | inl gone ↦ elim (Bool-cases (w.next_id == k)) [
          | inl new ↦
              let same : new_team w u name ≡ t =
                some-injective
                  (sym (find_team-last_new k (new_team w u name) w.teams gone new) ∙ found) in
              ap (λ x. x.elo) (sym same)
              ∙ ledger_elo-new k w.team_elo_history (h.unrated k (ground arith))
          | inr other ↦ cc (find_team-last_other k (new_team w u name) w.teams gone other, found)
        ]
        | inr (t', known) ↦
            let same : t' ≡ t =
              some-injective
                (sym (find_team-last_known k (new_team w u name) w.teams known) ∙ found) in
            ap (λ x. x.elo) (sym same) ∙ h.rated k known
      ];
      unissued = λ k le.
          find_team-last_other k (new_team w u name) w.teams (h.unissued k (omega arith))
            (ground arith);
      unrated = λ k le. h.unrated k (omega arith);
    })
  ];
}

pub writes-IsLedger : (wire : Wire) (rt : Runtime) → IsKeptByWrites wire rt IsLedger
writes-IsLedger wire rt =
    kept_by_writes (λ s w e. IsLedger-respects s w e.teams e.history e.ids) wire rt
      (update_elo-IsLedger rt.floats) (always_saved (λ m plays. save_match-IsLedger m))
      create_match-IsLedger notify_team-IsLedger insert_team-IsLedger

pub publish_event-IsLedger :
    (rt : Runtime) (topic : String) (payload : Json)
    → Keeps IsLedger (publish_event rt topic payload)
publish_event-IsLedger = event_published (λ s w e. IsLedger-respects s w e.teams e.history e.ids)

-- Whatever requests and events the platform serves, and whichever of them fail: the rating of each
-- team is the initial rating and the sum of the changes that the history of the team's ratings
-- records, if this was so at the start.
pub Reach-IsLedger :
    (wire : Wire) (rt : Runtime) {v w : World} → Reach wire rt v w → IsLedger v → IsLedger w
Reach-IsLedger wire rt = Reach-Keeps wire rt (writes-IsLedger wire rt)
