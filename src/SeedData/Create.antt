-- ===== src/SeedData/Create.antt =====
-- `get_or_create` of the tables that the command `seed_data` fills
-- (django-api/app/apps/users/management/commands/seed_data.py).
use tournament_platform_sdd.Base.{
  ℕ, zero, suc, ℤ, pos, ◌+ℤ◌, ◌+◌, ◌==◌, ◌&&◌, Bool, true, false, Option, none, String, str_eq,
  List, [], ◌∷◌, ◌++◌, filter, update_where,
}
use Prim.Native.String.{◌++◌ as str_append}
use tournament_platform_sdd.Exec.{
  Exec, ok, pure, raise, gets, modify, ◌>>=◌, ◌>>◌, multiple_objects, index_error,
}
use tournament_platform_sdd.Models.{
  World, User, Role, Team, TeamMember, Tournament, TournamentStatus, Format, TournamentTeam, Match,
  MatchStatus, UserEloHistory,
}
use tournament_platform_sdd.Views.MatchCreation.{new_match}
use tournament_platform_sdd.Views.Teams.{insert_team, insert_user}

-- A `for` loop, with what its rounds return.
unfoldable pub for_each {ℓ} :
    {A : Type ℓ} {B : Type 0} → (A → Exec World B) → List A → Exec World (List B)
for_each round [] = pure []
for_each round (x ∷ xs) = do y ← round x; ys ← for_each round xs; pure (y ∷ ys)

-- `xs[i]`
unfoldable pub pick : {A : Type 0} → List A → ℕ → Exec World A
pick [] i = raise index_error
pick (x ∷ xs) zero = pure x
pick (x ∷ xs) (suc i) = pick xs i

-- Each of the first list with `ys[i % len(ys)]`; `rest` is what is left of this round.
unfoldable pub deal : {A B : Type 0} → List A → List B → List B → List (A × B)
deal [] ys rest = []
deal (x ∷ xs) ys (y ∷ rest) = (x, y) ∷ deal xs ys rest
deal (x ∷ xs) [] [] = []
deal (x ∷ xs) (y ∷ ys) [] = (x, y) ∷ deal xs (y ∷ ys) ys

-- `get`, and what follows `DoesNotExist`: the row, and whether it was created.
unfoldable pub one_or_create : {A : Type 0} → List A → Exec World A → Exec World (A × Bool)
one_or_create [] create = do row ← create; pure (row, true)
one_or_create (row ∷ []) create = pure (row, false)
one_or_create (row ∷ other ∷ rows) create = raise multiple_objects

abbrev pub get_or_create :
    {A : Type 0} → (World → List A) → (A → Bool) → Exec World A → Exec World (A × Bool)
get_or_create rows p create = do found ← gets (λ w. filter p (rows w)); one_or_create found create

-- A user as `create` makes it, with no password yet.
abbrev pub seed_user_row : String → Role → World → User
seed_user_row name role w = record {
  id = w.next_id;
  username = name;
  email = str_append name "@tournament.local";
  password = "";
  role = role;
  elo = pos 1000;
  avatar_url = none;
  created_at = w.now;
  is_active = true;
  is_staff = false;
  is_superuser = false;
}

unfoldable pub create_seed_user : String → Role → Exec World User
create_seed_user name role w =
    (do insert_user (seed_user_row name role w); pure (seed_user_row name role w)) w

-- `set_password` and `save(update_fields=["password"])`
abbrev pub save_password : ℕ → String → World → World
save_password k hash w = record w {
  users = update_where (λ u. u.id == k) (λ u. record u { password = hash }) w.users;
}

unfoldable pub seed_user : (ℕ → String → String) → String → Role → String → Exec World User
seed_user make_password name role password = do
  made ← get_or_create (λ w. w.users) (λ u. str_eq u.username name) (create_seed_user name role)
  modify (save_password made.0.id (make_password made.0.id password))
  pure (record made.0 { password = make_password made.0.id password })

unfoldable pub seed_team : String → User → Exec World Team
seed_team name owner = do
  made ← get_or_create (λ w. w.teams) (λ t. str_eq t.name name) (insert_team owner name)
  pure made.0

unfoldable pub seed_member : User → Team → Exec World (Unit {0})
seed_member user team = do
  get_or_create (λ w. w.team_members) (λ m. m.user_id == user.id && m.team_id == team.id)
      λ w.
        let row : TeamMember = record { user_id = user.id; team_id = team.id; joined_at = w.now } in
        (ok row, record w { team_members = w.team_members ++ row ∷ [] })
  pure tt

unfoldable pub seed_tournament :
    String → TournamentStatus → Format → ℕ → ℕ → ℕ → User → Exec World Tournament
seed_tournament name status format max_teams start_date end_date owner = do
  made ←
      get_or_create (λ w. w.tournaments) (λ t. str_eq t.name name)
        λ w.
          let row : Tournament = record {
            id = w.next_id;
            name = name;
            status = status;
            format = format;
            max_teams = max_teams;
            start_date = start_date;
            end_date = end_date;
            created_by_id = owner.id;
          } in
          (ok row, record w { tournaments = w.tournaments ++ row ∷ []; next_id = w.next_id + 1 })
  pure made.0

unfoldable pub seed_registration : Tournament → Team → Exec World (Unit {0})
seed_registration tournament team = do
  get_or_create (λ w. w.tournament_teams)
      (λ r. r.tournament_id == tournament.id && r.team_id == team.id)
      λ w.
        let row : TournamentTeam = record {
          tournament_id = tournament.id;
          team_id = team.id;
          registered_at = w.now;
        } in
        (ok row, record w { tournament_teams = w.tournament_teams ++ row ∷ [] })
  pure tt

-- The ids of the tournament and of both teams, and the defaults.
unfoldable pub seed_match :
    ℕ → ℕ → ℕ → Option ℕ → ℤ → ℤ → MatchStatus → Option ℕ → Exec World (Match × Bool)
seed_match tournament_id team_a_id team_b_id winner score_a score_b status played_at =
    get_or_create (λ w. w.matches)
      (λ m.
        m.tournament_id == tournament_id && m.team_a_id == team_a_id && m.team_b_id == team_b_id)
      λ w.
        let row = new_match w.next_id (record {
          tournament_id = tournament_id;
          team_a_id = team_a_id;
          team_b_id = team_b_id;
          winner_team_id = winner;
          score_a = score_a;
          score_b = score_b;
          status = status;
          played_at = played_at;
        }) in
        (ok row, record w { matches = w.matches ++ row ∷ []; next_id = w.next_id + 1 })

unfoldable pub seed_history : Match → ℤ → User → Exec World (Unit {0})
seed_history m delta user = do
  get_or_create (λ w. w.user_elo_history) (λ h. h.user_id == user.id && h.match_id == m.id)
      λ w.
        let row : UserEloHistory = record {
          user_id = user.id;
          match_id = m.id;
          elo_before = user.elo;
          elo_after = user.elo +ℤ delta;
          changed_at = w.now;
        } in
        (ok row, record w { user_elo_history = w.user_elo_history ++ row ∷ [] })
  pure tt
