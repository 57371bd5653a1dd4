-- ===== src/SeedData/Rounds/Matches.antt =====
-- The matches and their history in two runs of `_seed` (seed_data.py in
-- django-api/app/apps/users/management/commands).
use tournament_platform_sdd.Base.{
  ℕ, ℤ, ◌≡◌, refl, sym, subst, Bool, false, if◌then◌else◌, List, Option,
}
use tournament_platform_sdd.Exec.{Exec, pure, ◌>>=◌, ◌>>◌}
use tournament_platform_sdd.Exec.Again.{Settles-bind}
use tournament_platform_sdd.Models.{World, Team, Tournament, Match, MatchStatus}
use tournament_platform_sdd.SeedData.Create.{seed_match}
use tournament_platform_sdd.SeedData.Lookup.{Grown-IsPreorder}
use tournament_platform_sdd.SeedData.Rounds.{Adding, Again}
use tournament_platform_sdd.SeedData.Rounds.Links.{seed_match-Again}
use tournament_platform_sdd.SeedData.{
  seed_match_history, seed_finished_match, seed_scheduled_match, seed_matches,
}
use tournament_platform_sdd.SeedData.Rounds.Rules.{
  Adding-pure, Adding-if, adding_rules, again_rules,
}

module _ (m : Match) (team_a team_b winner : Team) where
  seed_match_history-Adding : Adding (seed_match_history m team_a team_b winner)
  unfolding seed_match_history
  seed_match_history-Adding = search adding_rules depth 20

-- What follows a match that was looked up or created, and that does nothing where it was not created.
module _ (tournament_id team_a_id team_b_id : ℕ) (winner : Option ℕ) (score_a score_b : ℤ)
    (status : MatchStatus) (played : Option ℕ) (next : Match × Bool → Exec World (Unit {0})) where
  after_match-Again :
      ((made : Match × Bool) → Adding (next made))
      → ((made : Match × Bool) → made.1 ≡ false → next made ≡ pure tt)
      → Again
          (λ (x y : Unit {0}). x ≡ y)
          (seed_match tournament_id team_a_id team_b_id winner score_a score_b status played
            >>= next)
          (seed_match tournament_id team_a_id team_b_id winner score_a score_b status played
            >>= next)
  after_match-Again added stops =
      let look =
        seed_match tournament_id team_a_id team_b_id winner score_a score_b status played in
      Settles-bind Grown-IsPreorder look look next next
        (seed_match-Again tournament_id team_a_id team_b_id winner score_a score_b status played)
        (λ made made' r.
          subst (λ n. Again (λ (x y : Unit {0}). x ≡ y) (next made) n) (sym (stops made' r.1))
            (record { at = λ s t a h x. (tt, refl, refl, refl) }))
        added

module _ (tournament_id team_a_id team_b_id : ℕ) (winner : Option ℕ) (score_a score_b : ℤ)
    (status : MatchStatus) (played : Option ℕ) where
  scheduled-Again :
      Again
        (λ (x y : Unit {0}). x ≡ y)
        (seed_match tournament_id team_a_id team_b_id winner score_a score_b status played
          >> pure tt)
        (seed_match tournament_id team_a_id team_b_id winner score_a score_b status played
          >> pure tt)
  scheduled-Again =
      after_match-Again tournament_id team_a_id team_b_id winner score_a score_b status played
        (λ _. pure tt) (λ made. Adding-pure tt) (λ made h. refl)

  created-Again :
      (team_a team_b won : Team)
      → Again
          (λ (x y : Unit {0}). x ≡ y)
          (seed_match tournament_id team_a_id team_b_id winner score_a score_b status played
            >>= λ made. if made.1 then seed_match_history made.0 team_a team_b won else pure tt)
          (seed_match tournament_id team_a_id team_b_id winner score_a score_b status played
            >>= λ made. if made.1 then seed_match_history made.0 team_a team_b won else pure tt)
  created-Again team_a team_b won =
      after_match-Again tournament_id team_a_id team_b_id winner score_a score_b status played
        (λ made. if made.1 then seed_match_history made.0 team_a team_b won else pure tt)
        (λ made.
          Adding-if made.1 _ _ (seed_match_history-Adding made.0 team_a team_b won)
            (Adding-pure tt))
        (λ made h. rw h refl)

module _ (teams : List Team) (tournaments : List Tournament) where
  seed_scheduled_match-Adding : (k : ℕ × ℕ × ℕ) → Adding (seed_scheduled_match teams tournaments k)
  unfolding seed_scheduled_match
  seed_scheduled_match-Adding (a, b, d) = search adding_rules depth 20

  seed_scheduled_match-Again :
      (k : ℕ × ℕ × ℕ)
      → Again
          (λ (x y : Unit {0}). x ≡ y)
          (seed_scheduled_match teams tournaments k)
          (seed_scheduled_match teams tournaments k)
  unfolding seed_scheduled_match
  seed_scheduled_match-Again (a, b, d) =
      search (scheduled-Again, again_rules, adding_rules) depth 20

  seed_finished_match-Adding :
      (k : ℕ × ℕ × ℕ × ℕ) → Adding (seed_finished_match teams tournaments k)
  unfolding seed_finished_match
  seed_finished_match-Adding (a, b, c, d) =
      search (adding_rules, seed_match_history-Adding) depth 20

  seed_finished_match-Again :
      (k : ℕ × ℕ × ℕ × ℕ)
      → Again
          (λ (x y : Unit {0}). x ≡ y)
          (seed_finished_match teams tournaments k)
          (seed_finished_match teams tournaments k)
  unfolding seed_finished_match
  seed_finished_match-Again (a, b, c, d) =
      search (created-Again, again_rules, adding_rules, seed_match_history-Adding) depth 20

  pub seed_matches-Adding : Adding (seed_matches teams tournaments)
  unfolding seed_matches
  seed_matches-Adding =
      search (adding_rules, seed_finished_match-Adding, seed_scheduled_match-Adding) depth 20

  pub seed_matches-Again :
      Again
        (λ (x y : Unit {0}). x ≡ y)
        (seed_matches teams tournaments)
        (seed_matches teams tournaments)
  unfolding seed_matches
  seed_matches-Again =
      search
        (
          again_rules, adding_rules, seed_finished_match-Adding, seed_scheduled_match-Adding,
          seed_finished_match-Again, seed_scheduled_match-Again,
        )
        depth 20
