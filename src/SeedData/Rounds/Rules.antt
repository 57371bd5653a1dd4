-- ===== src/SeedData/Rounds/Rules.antt =====
-- Rules for two runs of a program that is put together from the steps of `_seed` (seed_data.py in
-- django-api/app/apps/users/management/commands).
use tournament_platform_sdd.Base.{ℕ, ◌≡◌, refl, subst, Bool, true, false, if◌then◌else◌, List}
use tournament_platform_sdd.Exec.{Exec, pure, gets, ◌>>=◌}
use tournament_platform_sdd.Exec.Repeat.{Grows-bind, Grows-pure}
use tournament_platform_sdd.Exec.Again.{Settles-bind, Settles-pure, Settles-weaken}
use tournament_platform_sdd.Models.{World}
use tournament_platform_sdd.SeedData.Create.{for_each, pick}
use tournament_platform_sdd.SeedData.Lookup.{without_passwords, Grown-refl, Grown-IsPreorder}
use tournament_platform_sdd.SeedData.Rounds.{Adding, Again, world_order}
use tournament_platform_sdd.SeedData.Rounds.Loops.{
  Both, Both-refl, Both-eq, deal-Both, for_each-Adding, for_each-Again, pick-Adding, pick-Again,
}
use tournament_platform_sdd.SeedData.Rounds.Users.{SameUser, seed_user-Adding, seed_user-Again}
use tournament_platform_sdd.SeedData.Rounds.Rows.{seed_team-Adding, seed_team-Again}
use tournament_platform_sdd.SeedData.Rounds.Links.{
  seed_member-Adding, seed_member-Again, seed_tournament-Adding, seed_tournament-Again,
  seed_registration-Adding, seed_registration-Again, seed_match-Adding, seed_match-Again,
  seed_history-Adding,
}

module _ {A B : Type 0} where
  pub Adding-bind :
      (m : Exec World A) (f : A → Exec World B)
      → Adding m
      → ((a : A) → Adding (f a))
      → Adding (m >>= f)
  Adding-bind m f first rest = Grows-bind world_order m f first rest

  pub Again-bind :
      {Q : B → B → Type 0} (m m' : Exec World A) (f f' : A → Exec World B)
      → Again (λ (x y : A). x ≡ y) m m'
      → ((a : A) → Again Q (f a) (f' a))
      → ((a : A) → Adding (f a))
      → Again Q (m >>= f) (m' >>= f')
  Again-bind {Q} m m' f f' first rest adds =
      Settles-bind Grown-IsPreorder m m' f f' first
        (λ a a' same. subst (λ v. Again Q (f a) (f' v)) same (rest a)) adds

module _ {A : Type 0} where
  pub Adding-pure : (a : A) → Adding {A = A} (pure a)
  Adding-pure a = Grows-pure world_order a

  pub Adding-gets : (f : World → A) → Adding (gets f)
  Adding-gets f = record { at = λ s. Grown-refl (without_passwords s) }

  pub Adding-if :
      (b : Bool) (m n : Exec World A) → Adding m → Adding n → Adding (if b then m else n)
  Adding-if true m n h k = h
  Adding-if false m n h k = k

  pub Again-pure : (a : A) → Again (λ (x y : A). x ≡ y) (pure a) (pure a)
  Again-pure a = Settles-pure _ a a refl

  pub pick-same : (xs : List A) (i : ℕ) → Again (λ (x y : A). x ≡ y) (pick xs i) (pick xs i)
  pick-same xs i = pick-Again _ xs xs i (Both-refl _ (λ x. refl) xs)

-- A loop over one list, which is done again.
pub for_each-same :
    {A B : Type 0} (round : A → Exec World B) (xs : List A)
    → ((x : A) → Again (λ (y z : B). y ≡ z) (round x) (round x))
    → ((x : A) → Adding (round x))
    → Again (λ (ys zs : List B). ys ≡ zs) (for_each round xs) (for_each round xs)
for_each-same {A} {B} round xs settled added =
    Settles-weaken (for_each round xs) (for_each round xs)
      (for_each-Again (λ x y. x ≡ y) (λ y z. y ≡ z) round round xs xs
        (λ x x' same. subst (λ v. Again (λ (y z : B). y ≡ z) (round x) (round v)) same (settled x))
        added (Both-refl _ (λ x. refl) xs))
      Both-eq

pub ruleset adding_rules = (
  Adding-bind, Adding-pure, Adding-gets, Adding-if, pick-Adding, for_each-Adding, seed_user-Adding,
  seed_team-Adding, seed_member-Adding, seed_tournament-Adding, seed_registration-Adding,
  seed_match-Adding, seed_history-Adding,
)

pub ruleset again_rules = (
  Again-bind, Again-pure, pick-same, for_each-same, seed_tournament-Again, seed_registration-Again,
)
