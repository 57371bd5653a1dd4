-- ===== src/Rating/Agreement.antt =====
-- The three copies of the Elo formula, compared.
use tournament_platform_sdd.Base.{ℤ, pos, ◌-ℤ◌, ◌≡◌, ◌↔◌, Bool, true, false, if◌then◌else◌, arith}
use tournament_platform_sdd.Exec.{Result, ok, err}
use tournament_platform_sdd.Raises.{◌>>=◌, >>=_assoc}
use tournament_platform_sdd.Floats.{PyFloat, IsExact}
use tournament_platform_sdd.Rating.{expected_score, update_elo, calculate_elo, elo_new}

-- Two computations that are both begun before either is finished.
abbrev begun_both {ℓ} :
    {F A : Type ℓ} → Result F → Result F → (F → Result A) → (F → Result A) → Result (A × A)
begun_both m n f g = do x ← m; y ← n; u ← f x; v ← g y; ok (u, v)

begun_both-eq-ok {ℓ} :
    {F A : Type ℓ} (m n : Result F) (f g : F → Result A) {a b : A}
    → (begun_both m n f g ≡ ok (a, b)) ↔ (((m >>= f) ≡ ok a) × ((n >>= g) ≡ ok b))
begun_both-eq-ok (err e) n f g = ground arith
begun_both-eq-ok (ok x) (err e) f g = ground arith
begun_both-eq-ok (ok x) (ok y) f g = ground arith

module _ (fl : PyFloat) where
  open fl use {Float, of_int, add, sub, mul, div, round}

  -- `calculate_elo` computes the expected score of `_expected_score` for the winner, and one less
  -- that for the loser.
  pub calculate_elo-eq :
      (w l k : ℤ)
      → calculate_elo fl w l k ≡ (
          expected_score fl w l >>= λ e. round (add w (mul k (sub (pos 1) e))) >>= λ w'.
          round (add l (mul k (sub (pos 0) (sub (pos 1) e)))) >>= λ l'. ok (w', l'))
  unfolding calculate_elo expected_score
  calculate_elo-eq w l k = simp >>=_assoc

  -- The score that `_elo_new` computes with, 1 or 0.
  abbrev score : Bool → ℤ
  score won = if won then pos 1 else pos 0

  elo_new-eq :
      (my opp : ℤ) (won : Bool)
      → IsExact (opp -ℤ my)
      → elo_new fl my opp won
        ≡ (expected_score fl my opp >>= λ e. round (add my (mul (pos 32) (sub (score won) e))))
  unfolding elo_new expected_score
  elo_new-eq my opp won exact =
      rw (← fl.true_div-eq (opp -ℤ my) (pos 400) exact (omega arith)) (simp >>=_assoc)

  -- Where the differences of the ratings are doubles, the SQL module's `_elo_new` gives the winner
  -- and the loser exactly the ratings that `_update_elo` returns, and fails for one of them if
  -- `_update_elo` fails.
  pub elo_new-update_elo :
      (w l w' l' : ℤ)
      → IsExact (l -ℤ w)
      → IsExact (w -ℤ l)
      → (update_elo fl w l ≡ ok (w', l'))
        ↔ ((elo_new fl w l true ≡ ok w') × (elo_new fl l w false ≡ ok l'))
  unfolding update_elo
  elo_new-update_elo w l w' l' xw xl =
      rw (elo_new-eq w l true xw, elo_new-eq l w false xl)
        (begun_both-eq-ok (expected_score fl w l) (expected_score fl l w)
          (λ e. round (add w (mul (pos 32) (sub (pos 1) e))))
          (λ e. round (add l (mul (pos 32) (sub (pos 0) e)))))
