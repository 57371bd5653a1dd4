-- ===== src/Teams/Idempotent.antt =====
-- `update_elo` of django-api/app/apps/teams/services.py rates a match once, and is atomic.
use tournament_platform_sdd.Base.{ℕ, ℤ, ◌≡◌, true, false, ==_refl, Bool-cases, inl, inr, any-last}
use tournament_platform_sdd.Exec.{Error, ok, err, atomic, atomic-err}
use tournament_platform_sdd.Exec.Rules.{Ensures, Ensures-bind, Ensures-atomic}
use tournament_platform_sdd.Models.{World, Match, Team}
use tournament_platform_sdd.Models.Tables.{has_team_history, create_team_history}
use tournament_platform_sdd.Floats.{PyFloat}
use tournament_platform_sdd.Teams.Service.{
  is_rated, write_ratings, rate_pair, rate_teams, update_elo,
}

-- The match has rows in the history of team ratings.
abbrev pub IsRated : ℕ → World → Type 0
IsRated match_id w = is_rated match_id w ≡ true

create_team_history-IsRated :
    (team match_id : ℕ) (before after : ℤ)
    → Ensures (IsRated match_id) (create_team_history team match_id before after)
unfolding create_team_history
create_team_history-IsRated team match_id before after = record {
  at = λ w a h. elim (Bool-cases (has_team_history team match_id w.team_elo_history)) [
    | inl seen ↦ cc (rw seen at h)
    | inr new ↦ rw new (any-last _ w.team_elo_history (==_refl match_id))
  ];
}

write_ratings-IsRated :
    (match_id : ℕ) (winner loser : Team) (ratings : ℤ × ℤ)
    → Ensures (IsRated match_id) (write_ratings match_id winner loser ratings)
unfolding write_ratings
write_ratings-IsRated match_id winner loser (w', l') =
    search (Ensures-bind, create_team_history-IsRated)

module _ (fl : PyFloat) where
  rate_pair-IsRated :
      (match_id winner_id loser_id : ℕ)
      → Ensures (IsRated match_id) (rate_pair fl match_id winner_id loser_id)
  unfolding rate_pair
  rate_pair-IsRated match_id winner_id loser_id =
      search (Ensures-bind, write_ratings-IsRated) depth 10

  rate_teams-IsRated : (m : Match) → Ensures (IsRated m.id) (rate_teams fl m)
  unfolding rate_teams
  rate_teams-IsRated m = search (Ensures-bind, rate_pair-IsRated)

  pub update_elo-rated : (m : Match) (w : World) → IsRated m.id w → update_elo fl m w ≡ (ok tt, w)
  unfolding update_elo
  update_elo-rated m w rated = rw rated

  pub update_elo-new :
      (m : Match) (w : World)
      → is_rated m.id w ≡ false
      → update_elo fl m w ≡ atomic (rate_teams fl m) w
  unfolding update_elo
  update_elo-new m w new = rw new

  pub update_elo-IsRated : (m : Match) → Ensures (IsRated m.id) (update_elo fl m)
  update_elo-IsRated m = record {
    at = λ w a h. elim (Bool-cases (is_rated m.id w)) [
      | inl rated ↦ rw (update_elo-rated m w rated) rated
      | inr new ↦ rw (update_elo-new m w new) (
          (Ensures-atomic (rate_teams fl m) (rate_teams-IsRated m)).at w a
            (rw (update_elo-new m w new) at h))
    ];
  }

  -- Once `update_elo` has returned, calling it for the same match returns again and changes
  -- nothing, whatever else the match row has become meanwhile.
  pub update_elo_idempotent :
      (m m' : Match) (w : World)
      → m'.id ≡ m.id
      → (update_elo fl m w).0 ≡ ok tt
      → update_elo fl m' (update_elo fl m w).1 ≡ (ok tt, (update_elo fl m w).1)
  update_elo_idempotent m m' w same h =
      update_elo-rated m' (update_elo fl m w).1 (rw same ((update_elo-IsRated m).at w tt h))

  -- An exception out of `update_elo` leaves the whole state as it was.
  pub update_elo_atomic :
      (m : Match) (w : World) {e : Error}
      → (update_elo fl m w).0 ≡ err e
      → (update_elo fl m w).1 ≡ w
  update_elo_atomic m w h = elim (Bool-cases (is_rated m.id w)) [
    | inl rated ↦ cc (h, update_elo-rated m w rated)
    | inr new ↦
        rw (update_elo-new m w new)
          (atomic-err (rate_teams fl m) w (rw (update_elo-new m w new) at h))
  ]
