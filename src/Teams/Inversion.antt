-- ===== src/Teams/Inversion.antt =====
-- What `update_elo` of django-api/app/apps/teams/services.py may have done to the state, whatever
-- the match and the state were.
use tournament_platform_sdd.Base.{
  ℕ, ℤ, ◌≡◌, ◌≢◌, ◌⊎◌, inl, inr, refl, sym, ap, ◌∙◌, true, ◌==◌, ◌&&◌, Bool-cases, Option-cases,
  none, some, [], ◌∷◌, ◌++◌, arith, any-last,
}
use tournament_platform_sdd.Exec.{ok, err, type_error}
use tournament_platform_sdd.Exec.Rules.{Result-cases}
use tournament_platform_sdd.Models.{World, Match, Team}
use tournament_platform_sdd.Models.Tables.{
  find_team, has_team_history, save_team_elo, create_team_history,
}
use tournament_platform_sdd.Floats.{PyFloat}
use tournament_platform_sdd.Rating.{calculate_elo, k_factor}
use tournament_platform_sdd.Teams.Service.{
  is_rated, loser_id, fetch_teams, write_ratings, rate_pair, rate_teams, update_elo,
}
use tournament_platform_sdd.Teams.Idempotent.{update_elo-rated, update_elo-new}
use tournament_platform_sdd.Teams.Outcome.{
  history_row, rated_world, fetch_winner, fetch_loser, rate_teams_lem, find_team-own,
}

-- After the winner's row of history a second one of the same team is refused.
second_refused :
    (match_id : ℕ) (winner loser : Team) (elo : ℤ) (w : World)
    → winner.id ≡ loser.id
    → has_team_history loser.id match_id
        (w.team_elo_history ++ history_row w match_id winner elo ∷ [])
      ≡ true
second_refused match_id winner loser elo w same =
    any-last (λ h. h.team_id == loser.id && h.match_id == match_id) w.team_elo_history
      {x = history_row w match_id winner elo} (ground arith)

write_ratings-ok :
    (match_id : ℕ) (winner loser : Team) (a b : ℤ) (w : World)
    → (write_ratings match_id winner loser (a, b) w).0 ≡ ok tt
    → (winner.id ≢ loser.id)
      × ((write_ratings match_id winner loser (a, b) w).1 ≡ rated_world w match_id winner loser a b)
unfolding write_ratings save_team_elo create_team_history
write_ratings-ok match_id winner loser a b w h =
    (λ same. ground (arith, second_refused match_id winner loser a w same), ground arith)

module _ (fl : PyFloat) where
  -- The rows that were rated, and the state then.
  abbrev pub Rated : World → ℕ → Team → Team → ℤ → ℤ → World → Type 0
  Rated w match_id winner loser a b w' =
      (find_team winner.id w.teams ≡ some winner)
      × (find_team loser.id w.teams ≡ some loser)
      × (winner.id ≢ loser.id)
      × (w' ≡ rated_world w match_id winner loser a b)

  rate_pair-ok :
      (match_id winner_id loser_id : ℕ) (w : World)
      → (rate_pair fl match_id winner_id loser_id w).0 ≡ ok tt
      → (winner loser : Team) × (a b : ℤ) × Rated w match_id winner loser a b
          (rate_pair fl match_id winner_id loser_id w).1
  unfolding rate_pair
  rate_pair-ok match_id winner_id loser_id w h =
      let teams = fetch_teams winner_id loser_id w in
      elim (Option-cases (find_team winner_id teams)) [
        | inl gone ↦ cc (rw gone at h)
        | inr (winner, fw) ↦ elim (Option-cases (find_team loser_id teams)) [
          | inl gone ↦ cc (rw (fw, gone) at h)
          | inr (loser, fo) ↦ elim (Result-cases (calculate_elo fl winner.elo loser.elo k_factor)) [
            | inr (e, bad) ↦ cc (rw (fw, fo, bad) at h)
            | inl (r, rated) ↦
                let (apart, after) =
                  write_ratings-ok match_id winner loser r.0 r.1 w (rw (fw, fo, rated) at h) in
                (
                  winner,
                  loser,
                  r.0,
                  r.1,
                  (
                    find_team-own winner_id w.teams (sym (fetch_winner winner_id loser_id w) ∙ fw),
                    find_team-own loser_id w.teams (sym (fetch_loser winner_id loser_id w) ∙ fo),
                    apart,
                    rw (fw, fo, rated) after,
                  ),
                )
          ]
        ]
      ]

  rate_teams-open :
      (m : Match) (w : World) → m.winner_team_id ≡ none → rate_teams fl m w ≡ (err type_error, w)
  unfolding rate_teams
  rate_teams-open m w open_ = simp open_

  -- Where the part of `update_elo` below its early return returns, it has rated two different teams of
  -- the table.
  pub rate_teams-ok :
      (m : Match) (w : World)
      → (rate_teams fl m w).0 ≡ ok tt
      → (winner loser : Team) × (a b : ℤ) × Rated w m.id winner loser a b (rate_teams fl m w).1
  rate_teams-ok m w h = elim (Option-cases m.winner_team_id) [
    | inl open_ ↦ cc (rw (rate_teams-open m w open_) at h)
    | inr (k, won) ↦
        let same = rate_teams_lem fl m k w won in
        rw same (rate_pair-ok m.id k (loser_id m) w (rw same at h))
  ]

  -- `update_elo` either changes nothing, or it rates two different teams of the table and adds one
  -- row of history for each.
  pub update_elo-cases :
      (m : Match) (w : World)
      → ((update_elo fl m w).1 ≡ w)
        ⊎ ((winner loser : Team) × (a b : ℤ) × Rated w m.id winner loser a b (update_elo fl m w).1)
  update_elo-cases m w = elim (Bool-cases (is_rated m.id w)) [
    | inl rated ↦ inl (ap (λ x. x.1) (update_elo-rated fl m w rated))
    | inr new ↦ elim (Result-cases (rate_teams fl m w).0) [
      | inl (u, h) ↦ rw (update_elo-new fl m w new) (rw h (inr (rate_teams-ok m w h)))
      | inr (e, h) ↦ rw (update_elo-new fl m w new) (rw h (inl refl))
    ]
  ]
