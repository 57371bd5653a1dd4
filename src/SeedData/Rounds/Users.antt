-- ===== src/SeedData/Rounds/Users.antt =====
-- `get_or_create` of a user and its password, in two runs of `_seed` (seed_data.py in
-- django-api/app/apps/users/management/commands).
use tournament_platform_sdd.Base.{
  ℕ, ◌≡◌, refl, sym, ap, ◌∙◌, Bool, ◌==◌, inl, inr, Bool-cases, String, str_eq_iff, List, [], ◌∷◌,
  ◌++◌, filter, map, arith, update_where,
}
use mathlib.Core.List.{map-append}
use tournament_platform_sdd.Exec.{Exec, ok, ◌>>◌, pure, modify}
use tournament_platform_sdd.Exec.Rules.{ok-injective}
use tournament_platform_sdd.Exec.Repeat.{Grows-bind, Grows-pure}
use tournament_platform_sdd.Exec.Again.{Settles-bind, Settles-pure}
use tournament_platform_sdd.Models.{World, User, Role}
use tournament_platform_sdd.Views.Teams.{insert_user, is_taken_user}
use tournament_platform_sdd.SeedData.Create.{
  get_or_create, create_seed_user, seed_user_row, save_password, seed_user,
}
use tournament_platform_sdd.SeedData.Found.{Held, Held-append, Held-refl, filter-map}
use tournament_platform_sdd.SeedData.Lookup.{
  blank_password, without_passwords, user_key, user_key-IsKey, Grown, Grown-refl, Grown-IsPreorder,
  get_or_create-Adds, get_or_create-Settles,
}
use tournament_platform_sdd.SeedData.Rounds.{filter-last, Adding, Again, world_order}

user_added :
    (x : User) (xs : List User)
    → filter (user_key x.username) xs ≡ []
    → Held user_key (map blank_password xs) (map blank_password (xs ++ x ∷ []))
user_added x xs new = rw (map-append blank_password xs (x ∷ [])) (
    Held-append user_key-IsKey x.username (blank_password x) (map blank_password xs)
      (filter-map _ _ blank_password xs (λ u. refl) ∙ ap (map blank_password) new)
      ((str_eq_iff x.username x.username).1 refl))

save_password-same :
    (k : ℕ) (hash : String) (xs : List User)
    → map blank_password (update_where (λ u. u.id == k) (λ u. record u { password = hash }) xs)
      ≡ map blank_password xs
save_password-same k hash [] = refl
save_password-same k hash (x ∷ xs) = ground (arith, save_password-same k hash xs)

without_passwords-save :
    (k : ℕ) (hash : String) (w : World)
    → without_passwords (save_password k hash w) ≡ without_passwords w
without_passwords-save k hash w =
    ap (λ us. record w { users = us }) (save_password-same k hash w.users)

save-Adding : (k : ℕ) (hash : String) → Adding (modify (save_password k hash))
save-Adding k hash = record {
  at = λ s. rw (without_passwords-save k hash s) (Grown-refl (without_passwords s));
}

save-Again :
    (k k' : ℕ) (hash hash' : String)
    → Again (λ x y. Unit {0}) (modify (save_password k hash)) (modify (save_password k' hash'))
save-Again k k' hash hash' = record {
  at = λ s t a h x. (tt, tt, refl, without_passwords-save k' hash' t);
}

module _ (name : String) (role : Role) where
  create_seed_user-added :
      (s : World)
      → filter (user_key name) s.users ≡ []
      → Grown (without_passwords s) (without_passwords (create_seed_user name role s).1)
  unfolding create_seed_user insert_user
  create_seed_user-added s new =
      let row = seed_user_row name role s in
      elim (Bool-cases (is_taken_user row.email name s.users)) [
        | inl taken ↦ rw taken (Grown-refl (without_passwords s))
        | inr free ↦ rw free (record {
          users = user_added row s.users new;
          teams = Held-refl s.teams;
          tournaments = Held-refl s.tournaments;
          members = Held-refl s.team_members;
          registrations = Held-refl s.tournament_teams;
          matches = Held-refl s.matches;
        })
      ]

  create_seed_user-inserts :
      (s : World) (a : User)
      → filter (user_key name) s.users ≡ []
      → (create_seed_user name role s).0 ≡ ok a
      → filter (user_key name) (create_seed_user name role s).1.users ≡ a ∷ []
  unfolding create_seed_user insert_user
  create_seed_user-inserts s a new h =
      let row = seed_user_row name role s in
      elim (Bool-cases (is_taken_user row.email name s.users)) [
        | inl taken ↦ cc (rw taken at h)
        | inr free ↦
            let same : row ≡ a = ok-injective (rw free at h) in
            rw free (
              filter-last (user_key name) row s.users new ((str_eq_iff name name).1 refl)
              ∙ ap (λ x. x ∷ []) same)
      ]

-- Either run has a row of the same user.
abbrev pub SameUser : User → User → Type 0
SameUser u v = u.id ≡ v.id

pub users_held :
    (name : String) (s t : World) (a : User)
    → Grown (without_passwords s) (without_passwords t)
    → filter (user_key name) s.users ≡ a ∷ []
    → (b : User) × SameUser a b × (filter (user_key name) t.users ≡ b ∷ [])
users_held name s t a g h = only_row (filter (user_key name) t.users) (
    sym (filter-map (user_key name) (user_key name) blank_password t.users (λ u. refl))
    ∙ g.users.at name (blank_password a)
        (filter-map _ _ blank_password s.users (λ u. refl) ∙ ap (map blank_password) h))
  where
    only_row :
        (found : List User)
        → map blank_password found ≡ blank_password a ∷ []
        → (b : User) × SameUser a b × (found ≡ b ∷ [])
    only_row [] e = cc
    only_row (b ∷ []) e = (b, sym (cc e), refl)
    only_row (b ∷ c ∷ more) e = cc

-- What `_seed` does to a user once it has the row.
abbrev give_password : (ℕ → String → String) → String → User → Exec World User
give_password make_password password u =
    modify (save_password u.id (make_password u.id password))
    >> pure (record u { password = make_password u.id password })

give_password-Adding :
    (make_password : ℕ → String → String) (password : String) (u : User)
    → Adding (give_password make_password password u)
give_password-Adding make_password password u =
    let hash = make_password u.id password in
    Grows-bind world_order (modify (save_password u.id hash))
      (λ _. pure (record u { password = hash })) (save-Adding u.id hash)
      (λ _. Grows-pure world_order (record u { password = hash }))

give_password-Again :
    (make_password make_password' : ℕ → String → String) (password : String) (u u' : User)
    → SameUser u u'
    → Again SameUser
        (give_password make_password password u)
        (give_password make_password' password u')
give_password-Again make_password make_password' password u u' same =
    let hash = make_password u.id password in
    let hash' = make_password' u'.id password in
    Settles-bind Grown-IsPreorder (modify (save_password u.id hash))
      (modify (save_password u'.id hash')) (λ _. pure (record u { password = hash }))
      (λ _. pure (record u' { password = hash' })) (save-Again u.id u'.id hash hash')
      (λ _ _ _.
        Settles-pure SameUser (record u { password = hash }) (record u' { password = hash' }) same)
      (λ _. Grows-pure world_order (record u { password = hash }))

module _ (name : String) (role : Role) (password : String) where
  abbrev found_user : Exec World (User × Bool)
  found_user = get_or_create (λ w. w.users) (user_key name) (create_seed_user name role)

  pub seed_user-Adding :
      (make_password : ℕ → String → String) → Adding (seed_user make_password name role password)
  unfolding seed_user
  seed_user-Adding make_password =
      Grows-bind world_order found_user (λ made. give_password make_password password made.0)
        (get_or_create-Adds (λ w. w.users) (user_key name) (create_seed_user name role)
          (create_seed_user-added name role))
        (λ made. give_password-Adding make_password password made.0)

  pub seed_user-Again :
      (make_password make_password' : ℕ → String → String)
      → Again SameUser
          (seed_user make_password name role password)
          (seed_user make_password' name role password)
  unfolding seed_user
  seed_user-Again make_password make_password' =
      Settles-bind Grown-IsPreorder found_user found_user
        (λ made. give_password make_password password made.0)
        (λ made. give_password make_password' password made.0)
        (get_or_create-Settles (λ w. w.users) (user_key name) (create_seed_user name role)
          (create_seed_user-inserts name role) SameUser (create_seed_user name role)
          (users_held name))
        (λ made made' same.
          give_password-Again make_password make_password' password made.0 made'.0 same.0)
        (λ made. give_password-Adding make_password password made.0)
