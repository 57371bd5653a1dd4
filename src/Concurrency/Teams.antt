-- ===== src/Concurrency/Teams.antt =====
-- The teams of a match never change, whatever the platform serves and whatever a report saves over
-- the match's row.
use tournament_platform_sdd.Base.{
  ℕ, ℤ, ◌≡◌, refl, sym, ap, ◌∙◌, subst, ◌==◌, some, List, [], ◌∷◌, ◌++◌, String, arith, Bool-cases,
  inl, inr, ==_iff,
}
use tournament_platform_sdd.Exec.{atomic}
use tournament_platform_sdd.Exec.Rules.{Keeps, Keeps-atomic, Result-cases}
use tournament_platform_sdd.Floats.{PyFloat}
use tournament_platform_sdd.Json.{Json, Wire}
use tournament_platform_sdd.Models.{World, User, Match}
use tournament_platform_sdd.Models.Tables.{
  find_match, save_match, save_team_elo, create_team_history,
}
use tournament_platform_sdd.Runtime.{Runtime}
use tournament_platform_sdd.Events.{publish_event}
use tournament_platform_sdd.Teams.Service.{rate_teams}
use tournament_platform_sdd.Teams.Steps.{rate_teams-Keeps, update_elo-Keeps}
use tournament_platform_sdd.Tournaments.Report.{find_match-save_match, find_match-own}
use tournament_platform_sdd.Tournaments.Failure.{save_match-err}
use tournament_platform_sdd.Consumers.Handlers.{notify_team, create_notification_log}
use tournament_platform_sdd.Views.MatchCreation.{MatchData, create_match, new_match}
use tournament_platform_sdd.Views.Teams.{insert_team}
use tournament_platform_sdd.Platform.Outside.{kept_by_writes, event_published}
use tournament_platform_sdd.Platform.Steps.{IsKeptByWrites, KeptBySave}

-- The match with this id is between these teams.
abbrev pub HasTeams : ℕ → ℕ → ℕ → World → Type 0
HasTeams k a b w =
    (m : Match) × (find_match k w.matches ≡ some m) × (m.team_a_id ≡ a) × (m.team_b_id ≡ b)

find_match-append :
    (k : ℕ) (ms ns : List Match) {m : Match}
    → find_match k ms ≡ some m
    → find_match k (ms ++ ns) ≡ some m
find_match-append k [] ns h = cc
find_match-append k (x ∷ xs) ns {m} h = ground (arith, find_match-append k xs ns {m = m})

-- Two look-ups find one row, if the ids agree.
same_row :
    (k j : ℕ) (ms : List Match) {x old : Match}
    → find_match k ms ≡ some x
    → find_match j ms ≡ some old
    → x.id ≡ j
    → old ≡ x
same_row k j ms {x} found own same =
    let again : find_match j ms ≡ some x =
      subst (λ i. find_match i ms ≡ some x) same (find_match-own k ms found) in
    cc (sym own ∙ again)

module _ (k a b : ℕ) where
  HasTeams-respects : (s w : World) → w.matches ≡ s.matches → HasTeams k a b s → HasTeams k a b w
  HasTeams-respects s w same (m, found, ea, eb) = (m, ap (find_match k) same ∙ found, ea, eb)

  team_saved : (t : ℕ) (elo : ℤ) → Keeps (HasTeams k a b) (save_team_elo t elo)
  unfolding save_team_elo
  team_saved t elo = record {
    at = λ w. HasTeams-respects w (save_team_elo t elo w).1 (ground arith);
  }

  history_made :
      (team match_id : ℕ) (before after : ℤ)
      → Keeps (HasTeams k a b) (create_team_history team match_id before after)
  unfolding create_team_history
  history_made team match_id before after = record {
    at = λ w.
        HasTeams-respects w (create_team_history team match_id before after w).1 (ground arith);
  }

  team_notified : (match_id team_id : ℕ) → Keeps (HasTeams k a b) (notify_team match_id team_id)
  unfolding notify_team create_notification_log
  team_notified match_id team_id = record {
    at = λ w. HasTeams-respects w (notify_team match_id team_id w).1 (ground arith);
  }

  team_made : (u : User) (name : String) → Keeps (HasTeams k a b) (insert_team u name)
  unfolding insert_team
  team_made u name = record {
    at = λ w. HasTeams-respects w (insert_team u name w).1 (ground arith);
  }

  match_made : (request : MatchData) → Keeps (HasTeams k a b) (create_match request)
  unfolding create_match
  match_made request = record {
    at = λ w (m, found, ea, eb).
        let kept = find_match-append k w.matches (new_match w.next_id request ∷ []) {m = m} found in
        (m, ground (arith, kept), ea, eb);
  }

  -- A row is only ever overwritten by one with the same teams.
  pub save_match-HasTeams :
      (m : Match) (w : World)
      → HasTeams m.id m.team_a_id m.team_b_id w
      → HasTeams k a b w
      → HasTeams k a b (save_match m w).1
  save_match-HasTeams m w (old, own, oa, ob) (x, found, ea, eb) =
      elim (Result-cases (save_match m w).0) [
        | inr (e, raised) ↦ rw (save_match-err m w raised) (x, found, ea, eb)
        | inl (u, saved) ↦
            let after = find_match-save_match k m w saved in
            elim (Bool-cases (x.id == m.id)) [
              | inr other ↦ (x, after ∙ rw (found, other) refl, ea, eb)
              | inl same ↦
                  let row = same_row k m.id w.matches found own ((==_iff x.id m.id).0 same) in
                  (
                    m,
                    after ∙ rw (found, same) refl,
                    sym oa ∙ ap (λ (y : Match). y.team_a_id) row ∙ ea,
                    sym ob ∙ ap (λ (y : Match). y.team_b_id) row ∙ eb,
                  )
            ]
      ]

  saved-HasTeams : KeptBySave (HasTeams k a b)
  saved-HasTeams m old w plays found same h = save_match-HasTeams m w (old, found, same.0, same.1) h

  pub writes-HasTeams : (wire : Wire) (rt : Runtime) → IsKeptByWrites wire rt (HasTeams k a b)
  writes-HasTeams wire rt =
      kept_by_writes (λ s w e. HasTeams-respects s w e.matches) wire rt
        (update_elo-Keeps team_saved history_made rt.floats) saved-HasTeams match_made team_notified
        team_made

  pub rate_teams-HasTeams :
      (fl : PyFloat) (m : Match) → Keeps (HasTeams k a b) (atomic (rate_teams fl m))
  rate_teams-HasTeams fl m =
      Keeps-atomic (rate_teams fl m) (rate_teams-Keeps team_saved history_made fl m)

  pub publish_event-HasTeams :
      (rt : Runtime) (topic : String) (payload : Json)
      → Keeps (HasTeams k a b) (publish_event rt topic payload)
  publish_event-HasTeams = event_published (λ s w e. HasTeams-respects s w e.matches)
