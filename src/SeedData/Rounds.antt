-- ===== src/SeedData/Rounds.antt =====
-- Two runs of the steps of `_seed` in seed_data.py
-- (django-api/app/apps/users/management/commands): what their lemmas share.
pub mod Users
pub mod Rows
pub mod Loops
pub mod Links
pub mod Rules
pub mod Matches
use tournament_platform_sdd.Base.{
  filter-append, ℕ, ℤ, ◌≡◌, refl, sym, ap, ◌∙◌, Bool, true, false, ◌==◌, ◌&&◌, ◌⊎◌, inl, inr,
  Bool-cases, String, str_eq, str_eq_iff, List, [], ◌∷◌, ◌++◌, filter, map, arith, update_where,
  if◌then◌else◌,
}
use mathlib.Core.List.{map-append}
use tournament_platform_sdd.Exec.{Exec, Result, ok, err, ◌>>=◌, ◌>>◌, pure, modify}
use tournament_platform_sdd.Exec.Rules.{ok-injective}
use tournament_platform_sdd.Exec.Repeat.{IsPreorder, Grows-bind, Grows-pure}
use tournament_platform_sdd.Exec.Again.{Adds, Settles, Settles-bind, Settles-pure}
use tournament_platform_sdd.Models.{
  World, User, Role, Team, TeamMember, Tournament, TournamentTeam, Match,
}
use tournament_platform_sdd.Views.Teams.{insert_user, is_taken_user}
use tournament_platform_sdd.SeedData.Create.{
  get_or_create, one_or_create, create_seed_user, seed_user_row, save_password, seed_user,
}
use tournament_platform_sdd.SeedData.Found.{Held, Held-append, Held-refl, filter-map}
use tournament_platform_sdd.SeedData.Lookup.{
  blank_password, without_passwords, user_key, user_key-IsKey, Grown, Grown-refl, Grown-IsPreorder,
  get_or_create-Adds, get_or_create-Settles,
}

pub filter-last :
    {A : Type 0} (p : A → Bool) (x : A) (xs : List A)
    → filter p xs ≡ []
    → p x ≡ true
    → filter p (xs ++ x ∷ []) ≡ x ∷ []
filter-last p x xs new own = ground (arith, filter-append p xs (x ∷ []))

-- An operation whose two runs the rules are about.
abbrev pub Adding {κ} : {A : Type κ} → Exec World A → Type κ
Adding = Adds without_passwords Grown

abbrev pub Again {κ μ} :
    {A : Type κ} {B : Type μ} → (A → B → Type 0) → Exec World A → Exec World B → Type (κ ⊔ μ)
Again = Settles without_passwords Grown

-- Additions to what matters of the state, as an order of states.
pub world_order : IsPreorder (λ s t. Grown (without_passwords s) (without_passwords t))
world_order = record {
  reflexive = λ s. Grown-refl (without_passwords s);
  transitive = λ s t u.
      Grown-IsPreorder.transitive (without_passwords s) (without_passwords t) (without_passwords u);
}
