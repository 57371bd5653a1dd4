-- ===== src/SeedData/Lookup.antt =====
-- The `get_or_create` of `seed_data` (django-api/app/apps/users/management/commands/seed_data.py)
-- in two runs: what the first found or created, the second finds.
use tournament_platform_sdd.Base.{
  ℕ, ◌≡◌, refl, ap, Bool, true, false, ◌==◌, ◌&&◌, inl, inr, String, str_eq, str_eq_iff, List, [],
  ◌∷◌, filter, map, arith,
}
use tournament_platform_sdd.Exec.{Exec, Result, ok, err, ◌>>=◌, pure}
use tournament_platform_sdd.Exec.Rules.{ok-injective, Result-cases}
use tournament_platform_sdd.Exec.Repeat.{IsPreorder}
use tournament_platform_sdd.Exec.Again.{Adds, Settles}
use tournament_platform_sdd.Models.{
  World, User, Team, TeamMember, Tournament, TournamentTeam, Match,
}
use tournament_platform_sdd.SeedData.Create.{get_or_create, one_or_create}
use tournament_platform_sdd.SeedData.Found.{IsKey, Held, Held-refl, Held-trans}

-- The state with every password blank.
abbrev pub blank_password : User → User
blank_password u = record u { password = "" }

abbrev pub without_passwords : World → World
without_passwords w = record w { users = map blank_password w.users }

-- What `get_or_create` looks rows up by.
abbrev pub user_key : String → User → Bool
user_key name u = str_eq u.username name

abbrev pub team_key : String → Team → Bool
team_key name t = str_eq t.name name

abbrev pub tournament_key : String → Tournament → Bool
tournament_key name t = str_eq t.name name

abbrev pub member_key : ℕ × ℕ → TeamMember → Bool
member_key k m = m.user_id == k.0 && m.team_id == k.1

abbrev pub registration_key : ℕ × ℕ → TournamentTeam → Bool
registration_key k r = r.tournament_id == k.0 && r.team_id == k.1

abbrev pub match_key : ℕ × ℕ × ℕ → Match → Bool
match_key k m = m.tournament_id == k.0 && m.team_a_id == k.1 && m.team_b_id == k.2

name_agrees : (k j x y : String) → str_eq x k ≡ true → str_eq y k ≡ true → str_eq x j ≡ str_eq y j
name_agrees k j x y hx hy =
    let ex = (str_eq_iff x k).0 hx in let ey = (str_eq_iff y k).0 hy in rw (ex, ey) refl

pub user_key-IsKey : IsKey user_key
user_key-IsKey = record { agree = λ k j x y. name_agrees k j x.username y.username }

pub team_key-IsKey : IsKey team_key
team_key-IsKey = record { agree = λ k j x y. name_agrees k j x.name y.name }

pub tournament_key-IsKey : IsKey tournament_key
tournament_key-IsKey = record { agree = λ k j x y. name_agrees k j x.name y.name }

pub member_key-IsKey : IsKey member_key
member_key-IsKey = record { agree = λ k j x y hx hy. ground arith }

pub registration_key-IsKey : IsKey registration_key
registration_key-IsKey = record { agree = λ k j x y hx hy. ground arith }

pub match_key-IsKey : IsKey match_key
match_key-IsKey = record { agree = λ k j x y hx hy. ground arith }

-- The rows that a later run looks up are still found.
pub record Grown (s t : World) : Type 0 where
  pub users : Held user_key s.users t.users
  pub teams : Held team_key s.teams t.teams
  pub tournaments : Held tournament_key s.tournaments t.tournaments
  pub members : Held member_key s.team_members t.team_members
  pub registrations : Held registration_key s.tournament_teams t.tournament_teams
  pub matches : Held match_key s.matches t.matches

pub Grown-refl : (s : World) → Grown s s
Grown-refl s = record {
  users = Held-refl s.users;
  teams = Held-refl s.teams;
  tournaments = Held-refl s.tournaments;
  members = Held-refl s.team_members;
  registrations = Held-refl s.tournament_teams;
  matches = Held-refl s.matches;
}

Grown-trans : (s t u : World) → Grown s t → Grown t u → Grown s u
Grown-trans s t u g h = record {
  users = Held-trans s.users t.users u.users g.users h.users;
  teams = Held-trans s.teams t.teams u.teams g.teams h.teams;
  tournaments = Held-trans s.tournaments t.tournaments u.tournaments g.tournaments h.tournaments;
  members = Held-trans s.team_members t.team_members u.team_members g.members h.members;
  registrations =
      Held-trans s.tournament_teams t.tournament_teams u.tournament_teams g.registrations
        h.registrations;
  matches = Held-trans s.matches t.matches u.matches g.matches h.matches;
}

pub Grown-IsPreorder : IsPreorder Grown
Grown-IsPreorder = record { reflexive = Grown-refl; transitive = Grown-trans }

module _ {A : Type 0} (rows : World → List A) (p : A → Bool) (create : Exec World A) where
  pub get_or_create-Adds :
      ((s : World)
        → filter p (rows s) ≡ []
        → Grown (without_passwords s) (without_passwords (create s).1))
      → Adds without_passwords Grown (get_or_create rows p create)
  unfolding one_or_create
  get_or_create-Adds added = record { at = λ s. at_rows s (filter p (rows s)) (added s) }
    where
      at_create :
          (s : World) (r : Result A) (s' : World)
          → Grown (without_passwords s) (without_passwords s')
          → Grown (without_passwords s) (
              without_passwords
                (◌>>=◌ {B = A × Bool} (λ (u : World). (r, s')) (λ row. pure (row, true)) s).1)
      at_create s (ok a) s' h = h
      at_create s (err e) s' h = h

      at_rows :
          (s : World) (found : List A)
          → (found ≡ [] → Grown (without_passwords s) (without_passwords (create s).1))
          → Grown (without_passwords s) (without_passwords (one_or_create found create s).1)
      at_rows s [] h = at_create s (create s).0 (create s).1 (h refl)
      at_rows s (row ∷ []) h = Grown-refl (without_passwords s)
      at_rows s (row ∷ other ∷ more) h = Grown-refl (without_passwords s)

  -- Where `get_or_create` returns, the row that it returns is the only one that passes the test.
  module _
      (inserted : (s : World) (a : A)
        → filter p (rows s) ≡ []
        → (create s).0 ≡ ok a
        → filter p (rows (create s).1) ≡ a ∷ []) where
    get_or_create-found :
        (s : World) (a : A) (made : Bool)
        → (get_or_create rows p create s).0 ≡ ok (a, made)
        → filter p (rows (get_or_create rows p create s).1) ≡ a ∷ []
    unfolding one_or_create
    get_or_create-found s a made h = at_rows (filter p (rows s)) refl h
      where
        at_rows :
            (found : List A)
            → filter p (rows s) ≡ found
            → (one_or_create found create s).0 ≡ ok (a, made)
            → filter p (rows (one_or_create found create s).1) ≡ a ∷ []
        at_rows [] e h = elim (Result-cases (create s).0) [
          | inl (b, done) ↦
              let same : b ≡ a = ap (λ x. x.0) (ok-injective (rw done at h)) in
              rw done (rw (← same) (inserted s b e done))
          | inr (x, bad) ↦ cc (rw bad at h)
        ]
        at_rows (row ∷ []) e h = rw e (ap (λ x. x.0 ∷ []) (ok-injective h))
        at_rows (row ∷ other ∷ more) e h = cc

    -- The second run finds one row where the first one has found or created its row.
    pub get_or_create-Settles :
        (R : A → A → Type 0) (create' : Exec World A)
        → ((s t : World) (a : A)
            → Grown (without_passwords s) (without_passwords t)
            → filter p (rows s) ≡ a ∷ []
            → (b : A) × R a b × (filter p (rows t) ≡ b ∷ []))
        → Settles without_passwords Grown
            (λ (x y : A × Bool). R x.0 y.0 × (y.1 ≡ false))
            (get_or_create rows p create)
            (get_or_create rows p create')
    unfolding one_or_create
    get_or_create-Settles R create' held = record {
      at = λ s t (a, made) h x.
          let (b, r, e) =
            held (get_or_create rows p create s).1 t a x (get_or_create-found s a made h) in
          ((b, false), (r, refl), rw (e, one_or_create) refl, rw (e, one_or_create) refl);
    }
