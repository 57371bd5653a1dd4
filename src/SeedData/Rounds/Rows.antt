-- ===== src/SeedData/Rounds/Rows.antt =====
-- `get_or_create` of all but users, in two runs of `_seed` (seed_data.py in
-- django-api/app/apps/users/management/commands).
use tournament_platform_sdd.Base.{
  ◌≡◌, refl, ap, ◌∙◌, Bool, true, inl, inr, Bool-cases, String, str_eq_iff, List, [], ◌∷◌, ◌++◌,
  filter,
}
use tournament_platform_sdd.Exec.{Exec, ok, ◌>>=◌, pure}
use tournament_platform_sdd.Exec.Rules.{ok-injective}
use tournament_platform_sdd.Exec.Repeat.{Grows-bind, Grows-pure}
use tournament_platform_sdd.Exec.Again.{Settles-bind, Settles-pure}
use tournament_platform_sdd.Models.{World, User, Team}
use tournament_platform_sdd.Views.Teams.{insert_team, is_taken_name, new_team}
use tournament_platform_sdd.SeedData.Create.{get_or_create, seed_team}
use tournament_platform_sdd.SeedData.Found.{Held-append, Held-refl}
use tournament_platform_sdd.SeedData.Lookup.{
  without_passwords, team_key, team_key-IsKey, Grown, Grown-refl, Grown-IsPreorder,
  get_or_create-Adds, get_or_create-Settles,
}
use tournament_platform_sdd.SeedData.Rounds.{filter-last, Adding, Again, world_order}

-- A row that was appended is the one that is found.
pub row-inserted :
    {A : Type 0} (p : A → Bool) (x a : A) (xs : List A)
    → filter p xs ≡ []
    → p x ≡ true
    → ok x ≡ ok a
    → filter p (xs ++ x ∷ []) ≡ a ∷ []
row-inserted p x a xs new own h = filter-last p x xs new own ∙ ap (λ y. y ∷ []) (ok-injective h)

-- `get_or_create` of a row that nothing changes later, and what is made of it.
module _ {A B : Type 0} (rows : World → List A) (p : A → Bool) (create : Exec World A)
    (f : A × Bool → B) where
  pub row-Adding :
      ((s : World)
        → filter p (rows s) ≡ []
        → Grown (without_passwords s) (without_passwords (create s).1))
      → Adding (get_or_create rows p create >>= λ made. pure (f made))
  row-Adding added =
      Grows-bind world_order (get_or_create rows p create) (λ made. pure (f made))
        (get_or_create-Adds rows p create added) (λ made. Grows-pure world_order (f made))

  pub row-Again :
      (create' : Exec World A)
      → ((a b : A) (c d : Bool) → a ≡ b → f (a, c) ≡ f (b, d))
      → ((s : World) (a : A)
          → filter p (rows s) ≡ []
          → (create s).0 ≡ ok a
          → filter p (rows (create s).1) ≡ a ∷ [])
      → ((s t : World) (a : A)
          → Grown (without_passwords s) (without_passwords t)
          → filter p (rows s) ≡ a ∷ []
          → filter p (rows t) ≡ a ∷ [])
      → Again
          (λ (x y : B). x ≡ y)
          (get_or_create rows p create >>= λ made. pure (f made))
          (get_or_create rows p create' >>= λ made. pure (f made))
  row-Again create' same inserted held =
      Settles-bind Grown-IsPreorder (get_or_create rows p create) (get_or_create rows p create')
        (λ made. pure (f made)) (λ made. pure (f made))
        (get_or_create-Settles rows p create inserted (λ a b. a ≡ b) create'
          (λ s t a g h. (a, refl, held s t a g h)))
        (λ x y r. Settles-pure (λ v w. v ≡ w) (f x) (f y) (same x.0 y.0 x.1 y.1 r.0))
        (λ made. Grows-pure world_order (f made))

module _ (name : String) (owner : User) where
  insert_team-added :
      (s : World)
      → filter (team_key name) s.teams ≡ []
      → Grown (without_passwords s) (without_passwords (insert_team owner name s).1)
  unfolding insert_team
  insert_team-added s new = elim (Bool-cases (is_taken_name name s.teams)) [
    | inl taken ↦ rw taken (Grown-refl (without_passwords s))
    | inr free ↦ rw free (record {
      users = Held-refl (without_passwords s).users;
      teams =
          Held-append team_key-IsKey name (new_team s owner name) s.teams new
            ((str_eq_iff name name).1 refl);
      tournaments = Held-refl s.tournaments;
      members = Held-refl s.team_members;
      registrations = Held-refl s.tournament_teams;
      matches = Held-refl s.matches;
    })
  ]

  insert_team-inserts :
      (s : World) (a : Team)
      → filter (team_key name) s.teams ≡ []
      → (insert_team owner name s).0 ≡ ok a
      → filter (team_key name) (insert_team owner name s).1.teams ≡ a ∷ []
  unfolding insert_team
  insert_team-inserts s a new h = elim (Bool-cases (is_taken_name name s.teams)) [
    | inl taken ↦ cc (rw taken at h)
    | inr free ↦ rw free (
        row-inserted (team_key name) (new_team s owner name) a s.teams new
          ((str_eq_iff name name).1 refl) (rw free at h))
  ]

  pub seed_team-Adding : Adding (seed_team name owner)
  unfolding seed_team
  seed_team-Adding =
      row-Adding (λ w. w.teams) (team_key name) (insert_team owner name) (λ made. made.0)
        insert_team-added

  pub seed_team-Again :
      (owner' : User) → Again (λ (x y : Team). x ≡ y) (seed_team name owner) (seed_team name owner')
  unfolding seed_team
  seed_team-Again owner' =
      row-Again (λ w. w.teams) (team_key name) (insert_team owner name) (λ made. made.0)
        (insert_team owner' name) (λ a b c d e. e) insert_team-inserts
        (λ s t a g h. g.teams.at name a h)
