-- ===== src/SeedData/Again.antt =====
-- A second run of the command `seed_data`,
-- django-api/app/apps/users/management/commands/seed_data.py.
use tournament_platform_sdd.Base.{
  ℕ, ◌≡◌, refl, subst, Bool, false, not, ◌&&◌, if◌then◌else◌, String, List, Bool-cases, inl, inr,
}
use tournament_platform_sdd.Exec.{Exec, ok, pure, ◌>>=◌}
use tournament_platform_sdd.Exec.Rules.{>>=-eq-ok}
use tournament_platform_sdd.Exec.Again.{Settles-bind, Settles-pure, Settles-weaken}
use tournament_platform_sdd.Models.{World, User, Role, Team, Tournament}
use tournament_platform_sdd.SeedData.Create.{
  for_each, pick, deal, seed_user, seed_team, seed_member,
}
use tournament_platform_sdd.SeedData.Lookup.{without_passwords, Grown-refl, Grown-IsPreorder}
use tournament_platform_sdd.SeedData.Rounds.{Adding, Again}
use tournament_platform_sdd.SeedData.Rounds.Loops.{
  Both, Both-refl, Both-eq, deal-Both, for_each-Again, pick-Again,
}
use tournament_platform_sdd.SeedData.Rounds.Users.{SameUser, seed_user-Adding, seed_user-Again}
use tournament_platform_sdd.SeedData.Rounds.Rows.{seed_team-Adding, seed_team-Again}
use tournament_platform_sdd.SeedData.Rounds.Links.{seed_member-Adding, seed_member-Again}
use tournament_platform_sdd.SeedData.Clear.{clear}
use tournament_platform_sdd.SeedData.{
  numbered, seed_tournaments, seed_registrations, seed_users, seed, handle,
}
use tournament_platform_sdd.SeedData.Rounds.Matches.{seed_matches-Adding, seed_matches-Again}
use tournament_platform_sdd.SeedData.Rounds.Rules.{
  Adding-pure, Again-bind, adding_rules, again_rules,
}

module _ (teams : List Team) (tournaments : List Tournament) where
  seed_registrations-Adding : Adding (seed_registrations teams tournaments)
  unfolding seed_registrations
  seed_registrations-Adding = search adding_rules depth 20

  seed_registrations-Again :
      Again
        (λ (x y : Unit {0}). x ≡ y)
        (seed_registrations teams tournaments)
        (seed_registrations teams tournaments)
  unfolding seed_registrations
  seed_registrations-Again = search (again_rules, adding_rules) depth 20

-- What follows a user that both runs have.
module _ {B : Type 0} {Q : B → B → Type 0} where
  user_bind :
      (m m' : Exec World User) (f f' : User → Exec World B)
      → Again SameUser m m'
      → ((u u' : User) → SameUser u u' → Again Q (f u) (f' u'))
      → ((u : User) → Adding (f u))
      → Again Q (m >>= f) (m' >>= f')
  user_bind m m' f f' first rest adds = Settles-bind Grown-IsPreorder m m' f f' first rest adds

pick_user :
    (us us' : List User) (i : ℕ) → Both SameUser us us' → Again SameUser (pick us i) (pick us' i)
pick_user us us' i h = pick-Again SameUser us us' i h

seed_tournaments-Adding : (organizers : List User) → Adding (seed_tournaments organizers)
unfolding seed_tournaments
seed_tournaments-Adding organizers = search adding_rules depth 20

seed_tournaments-Again :
    (us us' : List User)
    → Both SameUser us us'
    → Again (λ (x y : List Tournament). x ≡ y) (seed_tournaments us) (seed_tournaments us')
unfolding seed_tournaments
seed_tournaments-Again us us' people =
    search (user_bind, pick_user, again_rules, adding_rules) depth 30

-- The organizers and the players of both runs.
abbrev SamePeople : List User × List User → List User × List User → Type 0
SamePeople p q = Both SameUser p.0 q.0 × Both SameUser p.1 q.1

module _ (make_password make_password' : ℕ → String → String) where
  named-Again :
      (role : Role) (names : List String)
      → Again
          (Both SameUser)
          (for_each (λ name. seed_user make_password name role "password") names)
          (for_each (λ name. seed_user make_password' name role "password") names)
  named-Again role names =
      for_each-Again (λ x y. x ≡ y) SameUser (λ name. seed_user make_password name role "password")
        (λ name. seed_user make_password' name role "password") names names
        (λ x x' same.
          subst
            (λ v.
              Again SameUser (seed_user make_password x role "password")
                (seed_user make_password' v role "password"))
            same (seed_user-Again x role "password" make_password make_password'))
        (λ x. seed_user-Adding x role "password" make_password)
        (Both-refl (λ x y. x ≡ y) (λ x. refl) names)

  seed_users-Adding : Adding (seed_users make_password)
  unfolding seed_users
  seed_users-Adding = search adding_rules depth 20

  seed_users-Again : Again SamePeople (seed_users make_password) (seed_users make_password')
  unfolding seed_users
  seed_users-Again =
      let organizers =
        for_each (λ name. seed_user make_password name Role.organizer "password")
          (numbered "organizer" 3) in
      let organizers' =
        for_each (λ name. seed_user make_password' name Role.organizer "password")
          (numbered "organizer" 3) in
      let players =
        for_each (λ name. seed_user make_password name Role.player "password")
          (numbered "player" 16) in
      let players' =
        for_each (λ name. seed_user make_password' name Role.player "password")
          (numbered "player" 16) in
      user_bind (seed_user make_password "admin" Role.admin "admin1234")
        (seed_user make_password' "admin" Role.admin "admin1234")
        (λ _. organizers >>= λ os. players >>= λ ps. pure (os, ps))
        (λ _. organizers' >>= λ os. players' >>= λ ps. pure (os, ps))
        (seed_user-Again "admin" Role.admin "admin1234" make_password make_password')
        (λ _ _ _.
          Settles-bind Grown-IsPreorder organizers organizers'
            (λ os. players >>= λ ps. pure (os, ps)) (λ os. players' >>= λ ps. pure (os, ps))
            (named-Again Role.organizer (numbered "organizer" 3))
            (λ os os' same.
              Settles-bind Grown-IsPreorder players players' (λ ps. pure (os, ps))
                (λ ps. pure (os', ps)) (named-Again Role.player (numbered "player" 16))
                (λ ps ps' same'. Settles-pure SamePeople (os, ps) (os', ps') (same, same'))
                (λ ps. Adding-pure (os, ps)))
            (λ os. search adding_rules depth 20))
        (λ _. search adding_rules depth 20)

  seed-Adding : Adding (seed make_password)
  unfolding seed
  seed-Adding =
      search
        (
          adding_rules, seed_users-Adding, seed_tournaments-Adding, seed_registrations-Adding,
          seed_matches-Adding,
        )
        depth 20

ruleset seeding_rules =
    (adding_rules, seed_tournaments-Adding, seed_registrations-Adding, seed_matches-Adding)

-- The teams, with the organizers of either run as their owners, and their members.
module _ (p p' : List User × List User) (same : SamePeople p p') where
  teams-Again :
      Again
        (λ (x y : List Team). x ≡ y)
        (for_each (λ pair. seed_team pair.0 pair.1) (deal (numbered "Team " 6) p.0 p.0))
        (for_each (λ pair. seed_team pair.0 pair.1) (deal (numbered "Team " 6) p'.0 p'.0))
  teams-Again =
      Settles-weaken _ _
        (for_each-Again (λ (x y : String × User). (x.0 ≡ y.0) × SameUser x.1 y.1) (λ x y. x ≡ y)
          (λ pair. seed_team pair.0 pair.1) (λ pair. seed_team pair.0 pair.1) _ _
          (λ x x' r.
            subst (λ v. Again (λ (s t : Team). s ≡ t) (seed_team x.0 x.1) (seed_team v x'.1)) r.0
              (seed_team-Again x.0 x.1 x'.1))
          (λ x. seed_team-Adding x.0 x.1)
          (deal-Both (λ x y. x ≡ y) SameUser (numbered "Team " 6) (numbered "Team " 6) p.0 p'.0 p.0
            p'.0 (Both-refl (λ x y. x ≡ y) (λ x. refl) (numbered "Team " 6)) same.0 same.0))
        Both-eq

  members-Again :
      (teams : List Team)
      → Again
          (λ (x y : List (Unit {0})). x ≡ y)
          (for_each (λ pair. seed_member pair.0 pair.1) (deal p.1 teams teams))
          (for_each (λ pair. seed_member pair.0 pair.1) (deal p'.1 teams teams))
  members-Again teams =
      let all_same = Both-refl (λ (x y : Team). x ≡ y) (λ x. refl) teams in
      Settles-weaken _ _
        (for_each-Again (λ (x y : User × Team). SameUser x.0 y.0 × (x.1 ≡ y.1)) (λ x y. x ≡ y)
          (λ pair. seed_member pair.0 pair.1) (λ pair. seed_member pair.0 pair.1) _ _
          (λ x x' r.
            subst
              (λ v. Again (λ (s t : Unit {0}). s ≡ t) (seed_member x.0 x.1) (seed_member x'.0 v))
              r.1 (seed_member-Again x.0 x.1 x'.0 r.0))
          (λ x. seed_member-Adding x.0 x.1)
          (deal-Both SameUser (λ x y. x ≡ y) p.1 p'.1 teams teams teams teams same.1 all_same
            all_same))
        Both-eq

module _ (make_password make_password' : ℕ → String → String) where
  seed-Again : Again (λ (x y : Unit {0}). x ≡ y) (seed make_password) (seed make_password')
  unfolding seed
  seed-Again =
      Settles-bind Grown-IsPreorder (seed_users make_password) (seed_users make_password') _ _
        (seed_users-Again make_password make_password')
        (λ p p' same.
          Again-bind _ _ _ _ (teams-Again p p' same)
            (λ teams.
              Again-bind _ _ _ _ (members-Again p p' same teams)
                (λ _.
                  Again-bind _ _ _ _ (seed_tournaments-Again p.0 p'.0 same.0)
                    (λ tournaments.
                      Again-bind _ _ _ _ (seed_registrations-Again teams tournaments)
                        (λ _. seed_matches-Again teams tournaments)
                        (λ _. seed_matches-Adding teams tournaments))
                    (λ tournaments. search seeding_rules depth 20))
                (λ _. search seeding_rules depth 20))
            (λ teams. search seeding_rules depth 20))
        (λ p. search seeding_rules depth 20)

  -- Once the seeding has returned, it returns when it is done again.
  seed_twice :
      (w : World)
      → (seed make_password w).0 ≡ ok tt
      → let again = seed make_password' (seed make_password w).1 in
        (again.0 ≡ ok tt) × (without_passwords again.1 ≡ without_passwords (seed make_password w).1)
  seed_twice w h =
      let w' = (seed make_password w).1 in
      let (_, _, returned, same) = seed-Again.at w w' tt h (Grown-refl (without_passwords w')) in
      (returned, same)

  -- Once `seed_data` has returned, with or without `--clear`, running it again without the option
  -- returns too, and changes nothing in the whole state but passwords of users: it doubles no row,
  -- and it writes none back.
  pub handle_again :
      (clear_first debug : Bool) (w : World)
      → (handle make_password clear_first debug w).0 ≡ ok tt
      → let seeded = (handle make_password clear_first debug w).1 in
        let again = handle make_password' false debug seeded in
        (again.0 ≡ ok tt) × (without_passwords again.1 ≡ without_passwords seeded)
  unfolding handle
  handle_again clear_first debug w h = elim (Bool-cases (clear_first && not debug)) [
    | inl refused ↦ cc (rw refused at h)
    | inr run ↦
        let first : Exec World (Unit {0}) = if clear_first then clear else pure tt in
        let h' : ((first >>= λ _. seed make_password) w).0 ≡ ok tt = rw run at h in
        let (_, _, e) = >>=-eq-ok first (λ _. seed make_password) w h' in
        rw run (rw e (seed_twice (first w).1 (rw e at h')))
  ]
