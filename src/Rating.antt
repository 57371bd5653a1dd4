-- ===== src/Rating.antt =====
-- The Elo arithmetic, which the repository has three times: `_expected_score` and `_update_elo` of
-- django-api/app/apps/tournaments/services.py, `calculate_elo` of
-- django-api/app/apps/teams/services.py, and `_elo_new` of
-- django-api/app/apps/tournaments/sql_queries.py. Ratings are Python's `int`.
pub mod Agreement
pub mod Bounds
use tournament_platform_sdd.Base.{ℤ, pos, ◌-ℤ◌, Bool, if◌then◌else◌}
use tournament_platform_sdd.Exec.{Result, ok}
use tournament_platform_sdd.Raises.{◌>>=◌}
use tournament_platform_sdd.Floats.{PyFloat}

abbrev pub k_factor : ℤ
k_factor = pos 32

abbrev pub initial_elo : ℤ
initial_elo = pos 1000

module _ (fl : PyFloat) where
  open fl use {Float, of_int, add, sub, mul, true_div, div, pow, round}

  unfoldable pub expected_score : ℤ → ℤ → Result Float
  expected_score rating_a rating_b = do
    exponent ← true_div (rating_b -ℤ rating_a) (pos 400)
    power ← pow (pos 10) exponent
    div (pos 1) (add (pos 1) power)

  unfoldable pub update_elo : ℤ → ℤ → Result (ℤ × ℤ)
  update_elo winner_elo loser_elo = do
    expected_w ← expected_score winner_elo loser_elo
    expected_l ← expected_score loser_elo winner_elo
    new_winner ← round (add winner_elo (mul k_factor (sub (pos 1) expected_w)))
    new_loser ← round (add loser_elo (mul k_factor (sub (pos 0) expected_l)))
    ok (new_winner, new_loser)

  -- `k` has the default 32 in the source
  unfoldable pub calculate_elo : ℤ → ℤ → ℤ → Result (ℤ × ℤ)
  calculate_elo elo_winner elo_loser k = do
    exponent ← true_div (elo_loser -ℤ elo_winner) (pos 400)
    power ← pow (pos 10) exponent
    expected_winner ← div (pos 1) (add (pos 1) power)
    let expected_loser = sub (pos 1) expected_winner
    new_winner ← round (add elo_winner (mul k (sub (pos 1) expected_winner)))
    new_loser ← round (add elo_loser (mul k (sub (pos 0) expected_loser)))
    ok (new_winner, new_loser)

  unfoldable pub elo_new : ℤ → ℤ → Bool → Result ℤ
  elo_new my_elo opp_elo won = do
    exponent ← div (opp_elo -ℤ my_elo) (of_int (pos 400))
    power ← pow (pos 10) exponent
    expected ← div (pos 1) (add (pos 1) power)
    round (add my_elo (mul (pos 32) (sub (if won then pos 1 else pos 0) expected)))
