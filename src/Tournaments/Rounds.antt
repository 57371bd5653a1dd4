-- ===== src/Tournaments/Rounds.antt =====
-- The loops of `_update_team_elo` in django-api/app/apps/tournaments/services.py: their rounds, and
-- that they keep what their writes keep.
use tournament_platform_sdd.Base.{ℕ, ℤ, ◌≡◌, refl, List, [], ◌∷◌}
use tournament_platform_sdd.Exec.{Exec, pure, ◌>>=◌}
use tournament_platform_sdd.Exec.Rules.{Keeps, keeps_rules, Keeps-bind, Keeps-pure}
use tournament_platform_sdd.Models.{World, Match, User, UserEloHistory}
use tournament_platform_sdd.Models.Tables.{save_user_elo}
use tournament_platform_sdd.Floats.{PyFloat}
use tournament_platform_sdd.Tournaments.UserRating.{
  rate_winner, rate_loser, for_members, bulk_create, update_team_elo,
}

pub for_members-nil : (round : User → Exec World UserEloHistory) → for_members round [] ≡ pure []
unfolding for_members
for_members-nil round = refl

pub for_members-cons :
    (round : User → Exec World UserEloHistory) (u : User) (us : List User)
    → for_members round (u ∷ us)
      ≡ (round u >>= λ row. for_members round us >>= λ rows. pure (row ∷ rows))
unfolding for_members
for_members-cons round u us = refl

-- A loop keeps what each of its rounds keeps.
pub for_members-Keeps :
    {P : World → Type 0} (round : User → Exec World UserEloHistory) (users : List User)
    → ((u : User) → Keeps P (round u))
    → Keeps P (for_members round users)
for_members-Keeps round [] kept = unfold for_members in Keeps-pure []
for_members-Keeps {P} round (u ∷ us) kept = rw (for_members-cons round u us) (
    Keeps-bind (round u) _ (kept u) (λ row.
      Keeps-bind (for_members round us) _ (for_members-Keeps round us kept)
        (λ rows. Keeps-pure (row ∷ rows))))

module _ {P : World → Type 0} (saved : (k : ℕ) (elo : ℤ) → Keeps P (save_user_elo k elo))
    (made : (rows : List UserEloHistory) → Keeps P (bulk_create rows)) (fl : PyFloat) where
  pub rate_winner-Keeps : (m : Match) (u : User) → Keeps P (rate_winner fl m u)
  unfolding rate_winner
  rate_winner-Keeps m u = search (keeps_rules, saved) depth 10

  pub rate_loser-Keeps : (m : Match) (u : User) → Keeps P (rate_loser fl m u)
  unfolding rate_loser
  rate_loser-Keeps m u = search (keeps_rules, saved) depth 10

  pub update_team_elo-Keeps : (m : Match) → Keeps P (update_team_elo fl m)
  unfolding update_team_elo
  update_team_elo-Keeps m =
      search (keeps_rules, for_members-Keeps, rate_winner-Keeps, rate_loser-Keeps, made) depth 10
