-- ===== src/SqlQueries.antt =====
-- django-api/app/apps/tournaments/sql_queries.py. Here is `record_match_result`: the result of a
-- match between two players, written in one transaction of raw SQL. The children have the queries.
pub mod Queries
pub mod Leaderboard
pub mod Wins
pub mod History
use tournament_platform_sdd.Base.{
  ℕ, ℤ, ◌≡◌, refl, ◌⊎◌, inl, inr, true, false, ◌==◌, ◌&&◌, not, if◌then◌else◌, List, any,
  update_where, some, arith,
}
use tournament_platform_sdd.Exec.{Exec, Error, ok, err, lift, atomic, ◌>>=◌, ◌>>◌, integrity_error}
use tournament_platform_sdd.Exec.Rules.{Result-cases}
use tournament_platform_sdd.Models.{World, User}
use tournament_platform_sdd.Models.Tables.{save_user_elo}
use tournament_platform_sdd.Floats.{PyFloat}
use tournament_platform_sdd.Rating.{elo_new}

-- `UPDATE matches SET winner_team_id = … WHERE id = …`: no row is no error, and the winner of a
-- row must be a team.
unfoldable pub set_winner : ℕ → ℕ → Exec World (Unit {0})
set_winner match_id team w =
    if any (λ m. m.id == match_id) w.matches && not (any (λ t. t.id == team) w.teams)
    then (err integrity_error, w)
    else (
      ok tt,
      record w {
        matches =
            update_where (λ m. m.id == match_id) (λ m. record m { winner_team_id = some team })
              w.matches;
      },
    )

-- The statements between `BEGIN` and `COMMIT`.
unfoldable pub write_result : ℕ → ℕ → ℕ → ℕ → ℤ → ℤ → Exec World (Unit {0})
write_result match_id team winner loser new_winner_elo new_loser_elo = do
  set_winner match_id team
  save_user_elo winner new_winner_elo
  save_user_elo loser new_loser_elo

module _ (fl : PyFloat) where
  unfoldable pub record_match_result : ℕ → ℕ → ℕ → ℕ → ℤ → ℤ → Exec World (Unit {0})
  record_match_result match_id team winner loser winner_elo loser_elo = do
    new_winner_elo ← lift (elo_new fl winner_elo loser_elo true)
    new_loser_elo ← lift (elo_new fl loser_elo winner_elo false)
    atomic (write_result match_id team winner loser new_winner_elo new_loser_elo)

-- The players with the rating of one of them replaced.
abbrev pub with_user_elo : ℕ → ℤ → List User → List User
with_user_elo k elo = update_where (λ u. u.id == k) (λ u. record u { elo = elo })

-- The state with the winner of the match and both ratings written.
abbrev pub result_world : World → ℕ → ℕ → ℕ → ℕ → ℤ → ℤ → World
result_world w match_id team winner loser new_winner_elo new_loser_elo = record w {
  matches =
      update_where (λ m. m.id == match_id) (λ m. record m { winner_team_id = some team }) w.matches;
  users = with_user_elo loser new_loser_elo (with_user_elo winner new_winner_elo w.users);
}

write_result-ok :
    (match_id team winner loser : ℕ) (a b : ℤ) (w : World)
    → (write_result match_id team winner loser a b w).0 ≡ ok tt
    → (write_result match_id team winner loser a b w).1
      ≡ result_world w match_id team winner loser a b
unfolding write_result set_winner save_user_elo
write_result-ok match_id team winner loser a b w h = ground arith

atomic-write_result :
    (match_id team winner loser : ℕ) (a b : ℤ) (w : World)
    → let (r, w') = atomic (write_result match_id team winner loser a b) w in
      ((r ≡ ok tt) × (w' ≡ result_world w match_id team winner loser a b))
      ⊎ ((e : Error) × (r ≡ err e) × (w' ≡ w))
atomic-write_result match_id team winner loser a b w =
    elim (Result-cases (write_result match_id team winner loser a b w).0) [
      | inl (u, h) ↦ rw h (inl (refl, write_result-ok match_id team winner loser a b w h))
      | inr (e, h) ↦ rw h (inr (e, refl, refl))
    ]

module _ (fl : PyFloat) where
  -- `record_match_result` writes all or nothing. If it returns, both new ratings are those of
  -- `_elo_new`, and the state has the winner of the match and both ratings and is else as it was; if
  -- it raises, the state is as it was.
  pub record_match_result_atomic :
      (match_id team winner loser : ℕ) (a b : ℤ) (w : World)
      → let (r, w') = record_match_result fl match_id team winner loser a b w in
        ((r ≡ ok tt)
          × ((a' b' : ℤ) × (elo_new fl a b true ≡ ok a')
              × (elo_new fl b a false ≡ ok b')
              × (w' ≡ result_world w match_id team winner loser a' b')))
        ⊎ ((e : Error) × (r ≡ err e) × (w' ≡ w))
  unfolding record_match_result
  record_match_result_atomic match_id team winner loser a b w =
      elim (Result-cases (elo_new fl a b true)) [
        | inr (e, h) ↦ rw h (inr (e, refl, refl))
        | inl (a', ha) ↦ elim (Result-cases (elo_new fl b a false)) [
          | inr (e, h) ↦ rw (ha, h) (inr (e, refl, refl))
          | inl (b', hb) ↦
              rw (ha, hb)
                (elim (atomic-write_result match_id team winner loser a' b' w) [
                  | inl (r, same) ↦ inl (r, (a', b', refl, refl, same))
                  | inr raised ↦ inr raised
                ])
        ]
      ]
