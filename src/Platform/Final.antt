-- ===== src/Platform/Final.antt =====
-- What the ratings of a match are worth: once it is rated, its rows in the history of the teams'
-- ratings stay as they are, also where an admin overwrites the result.
use tournament_platform_sdd.Base.{
  ℕ, String, ◌≡◌, refl, sym, ◌∙◌, ap, subst, true, false, Bool-cases, ◌==◌, ==_iff, ℤ, inl, inr,
  List, [], ◌∷◌, ◌++◌, filter, any-append, arith,
}
use tournament_platform_sdd.Exec.Rules.{Keeps}
use tournament_platform_sdd.Json.{Wire}
use tournament_platform_sdd.Models.{World, Match, User, Team, TeamEloHistory}
use tournament_platform_sdd.Models.Tables.{save_match}
use tournament_platform_sdd.Runtime.{Runtime}
use tournament_platform_sdd.Floats.{PyFloat}
use tournament_platform_sdd.Teams.Service.{is_rated, update_elo}
use tournament_platform_sdd.Teams.Idempotent.{update_elo-rated}
use tournament_platform_sdd.Teams.Outcome.{history_row, rated_world}
use tournament_platform_sdd.Teams.Inversion.{update_elo-cases}
use tournament_platform_sdd.Consumers.Handlers.{notify_team, create_notification_log}
use tournament_platform_sdd.Views.MatchCreation.{MatchData, create_match}
use tournament_platform_sdd.Views.Teams.{insert_team}
use tournament_platform_sdd.Platform.{Reach}
use tournament_platform_sdd.Platform.Outside.{always_saved, kept_by_writes}
use tournament_platform_sdd.Platform.Steps.{Reach-Keeps}

-- The rows that the history has for a match.
abbrev pub rows_of : ℕ → List TeamEloHistory → List TeamEloHistory
rows_of k = filter (λ h. h.match_id == k)

rows_of-last_other :
    (k : ℕ) (h : TeamEloHistory) (hs : List TeamEloHistory)
    → (h.match_id == k) ≡ false
    → rows_of k (hs ++ h ∷ []) ≡ rows_of k hs
rows_of-last_other k h [] other = rw other refl
rows_of-last_other k h (g ∷ gs) other = rw (rows_of-last_other k h gs other) refl

-- A match that is not rated is another one than one that is.
other_match : (j k : ℕ) (w : World) → is_rated j w ≡ false → is_rated k w ≡ true → (j == k) ≡ false
other_match j k w new rated = elim (Bool-cases (j == k)) [
  | inl same ↦ cc (new, rated, ap (λ i. is_rated i w) ((==_iff j k).0 same))
  | inr ne ↦ ne
]

-- The match is rated, and these are its rows.
record IsFinal (k : ℕ) (rows : List TeamEloHistory) (w : World) : Type 0 where
  rated : is_rated k w ≡ true
  same_rows : rows_of k w.team_elo_history ≡ rows

module _ (k : ℕ) (rows : List TeamEloHistory) where
  IsFinal-respects :
      (s w : World) → w.team_elo_history ≡ s.team_elo_history → IsFinal k rows s → IsFinal k rows w
  IsFinal-respects s w same h = record {
    rated = rw same (h.rated);
    same_rows = rw same (h.same_rows);
  }

  -- The rows that another match adds are no rows of this one.
  IsFinal-rated_world :
      (match_id : ℕ) (winner loser : Team) (a b : ℤ) (w : World)
      → is_rated match_id w ≡ false
      → IsFinal k rows w
      → IsFinal k rows (rated_world w match_id winner loser a b)
  IsFinal-rated_world match_id winner loser a b w new h =
      let other = other_match match_id k w new h.rated in
      let first = history_row w match_id winner a in
      let second = history_row w match_id loser b in
      let hs = w.team_elo_history in
      record {
        rated =
            rw
              (
                any-append (λ x. x.match_id == k) (hs ++ first ∷ []) (second ∷ []),
                any-append (λ x. x.match_id == k) hs (first ∷ []),
                h.rated,
              )
              refl;
        same_rows =
            rows_of-last_other k second (hs ++ first ∷ []) other
            ∙ rows_of-last_other k first hs other
            ∙ h.same_rows;
      }

  update_elo-IsFinal : (fl : PyFloat) (m : Match) → Keeps (IsFinal k rows) (update_elo fl m)
  update_elo-IsFinal fl m = record {
    at = λ w h. elim (Bool-cases (is_rated m.id w)) [
      | inl again ↦ rw (update_elo-rated fl m w again) h
      | inr new ↦ elim (update_elo-cases fl m w) [
        | inl same ↦ subst (IsFinal k rows) (sym same) h
        | inr (winner, loser, a, b, (winner_row, loser_row, apart, after)) ↦
            subst (IsFinal k rows) (sym after) (IsFinal-rated_world m.id winner loser a b w new h)
      ]
    ];
  }

  save_match-IsFinal : (m : Match) → Keeps (IsFinal k rows) (save_match m)
  unfolding save_match
  save_match-IsFinal m = record { at = λ w. IsFinal-respects w (save_match m w).1 (ground arith) }

  create_match-IsFinal : (request : MatchData) → Keeps (IsFinal k rows) (create_match request)
  unfolding create_match
  create_match-IsFinal request = record {
    at = λ w. IsFinal-respects w (create_match request w).1 (ground arith);
  }

  notify_team-IsFinal :
      (match_id team_id : ℕ) → Keeps (IsFinal k rows) (notify_team match_id team_id)
  unfolding notify_team create_notification_log
  notify_team-IsFinal match_id team_id = record {
    at = λ w. IsFinal-respects w (notify_team match_id team_id w).1 (ground arith);
  }

  insert_team-IsFinal : (u : User) (name : String) → Keeps (IsFinal k rows) (insert_team u name)
  unfolding insert_team
  insert_team-IsFinal u name = record {
    at = λ w. IsFinal-respects w (insert_team u name w).1 (ground arith);
  }

-- The rating of a match is final: once its teams are rated, no request and no event, not even a
-- result that an admin writes over it, adds or changes a row of the history for this match.
pub Reach-rows_of :
    (wire : Wire) (rt : Runtime) (k : ℕ) {v w : World}
    → Reach wire rt v w
    → is_rated k v ≡ true
    → rows_of k w.team_elo_history ≡ rows_of k v.team_elo_history
Reach-rows_of wire rt k {v} {w} reached rated =
    let rows = rows_of k v.team_elo_history in
    (Reach-Keeps wire rt
      (kept_by_writes {P = IsFinal k rows} (λ s u e. IsFinal-respects k rows s u e.history) wire rt
        (update_elo-IsFinal k rows rt.floats)
        (always_saved (λ m plays. save_match-IsFinal k rows m)) (create_match-IsFinal k rows)
        (notify_team-IsFinal k rows) (insert_team-IsFinal k rows))
      reached (record { rated = rated; same_rows = refl })).same_rows
