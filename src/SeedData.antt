-- ===== src/SeedData.antt =====
-- The command `seed_data`, django-api/app/apps/users/management/commands/seed_data.py.
pub mod Create
pub mod Clear
pub mod Debug
pub mod Found
pub mod Lookup
mod Rounds
pub mod Again
use tournament_platform_sdd.Base.{
  ℕ, ℤ, pos, negsuc, ◌+ℤ◌, ◌==◌, Bool, true, false, not, ◌&&◌, if◌then◌else◌, none, some, String,
  List, [], ◌∷◌, ◌++◌, map, take,
}
use Prim.Native.String.{◌++◌ as str_append}
use tournament_platform_sdd.Exec.{Exec, pure, raise, gets, modify, ◌>>=◌, ◌>>◌, system_exit}
use tournament_platform_sdd.Models.{
  World, User, Role, Team, Tournament, TournamentStatus, Format, Match, MatchStatus,
}
use tournament_platform_sdd.Tournaments.UserRating.{members_of}
use tournament_platform_sdd.SeedData.Create.{
  for_each, pick, deal, seed_user, seed_team, seed_member, seed_tournament, seed_registration,
  seed_match, seed_history,
}
use tournament_platform_sdd.SeedData.Clear.{clear}

abbrev pub numerals : List String
numerals =
    "1" ∷ "2" ∷ "3" ∷ "4" ∷ "5" ∷ "6" ∷ "7" ∷ "8" ∷ "9" ∷ "10" ∷ "11" ∷ "12" ∷ "13" ∷ "14" ∷ "15"
    ∷ "16" ∷ []

-- `f"{stem}{i}"`, for `i` from 1 to `n`
abbrev pub numbered : String → ℕ → List String
numbered stem n = map (str_append stem) (take n numerals)

-- 5 March 2025 at 14:00, in seconds; the days below are counted from 1970 too.
abbrev pub played_at : ℕ
played_at = 1741183200

-- `finished_matches_data`, as places in the lists of teams and tournaments.
abbrev pub finished_matches : List (ℕ × ℕ × ℕ × ℕ)
finished_matches = (0, 1, 0, 0) ∷ (2, 3, 2, 0) ∷ (0, 2, 0, 0) ∷ (0, 1, 1, 1) ∷ (2, 3, 3, 1) ∷ []

-- `scheduled_matches_data`
abbrev pub scheduled_matches : List (ℕ × ℕ × ℕ)
scheduled_matches =
    (1, 2, 1) ∷ (0, 3, 1) ∷ (0, 1, 2) ∷ (2, 3, 2) ∷ (4, 5, 2) ∷ (0, 4, 2) ∷ (1, 5, 2) ∷ []

-- The rows of history of a finished match that was created: 20 points more for the members of the
-- winner, 20 less for the others. No rating is changed.
unfoldable pub seed_match_history : Match → Team → Team → Team → Exec World (Unit {0})
seed_match_history m team_a team_b winner = do
  team_a_members ← gets (members_of (some team_a.id))
  team_b_members ← gets (members_of (some team_b.id))
  for_each (seed_history m (if team_a.id == winner.id then pos 20 else negsuc 19)) team_a_members
  for_each (seed_history m (if team_b.id == winner.id then pos 20 else negsuc 19)) team_b_members
  pure tt

unfoldable pub seed_finished_match :
    List Team → List Tournament → ℕ × ℕ × ℕ × ℕ → Exec World (Unit {0})
seed_finished_match teams tournaments (a, b, c, d) = do
  team_a ← pick teams a
  team_b ← pick teams b
  winner ← pick teams c
  tournament ← pick tournaments d
  made ←
      seed_match tournament.id team_a.id team_b.id (some winner.id)
        (if winner.id == team_a.id then pos 2 else pos 0)
        (if winner.id == team_b.id then pos 2 else pos 0) MatchStatus.finished (some played_at)
  if made.1 then seed_match_history made.0 team_a team_b winner else pure tt

unfoldable pub seed_scheduled_match :
    List Team → List Tournament → ℕ × ℕ × ℕ → Exec World (Unit {0})
seed_scheduled_match teams tournaments (a, b, d) = do
  team_a ← pick teams a
  team_b ← pick teams b
  tournament ← pick tournaments d
  seed_match tournament.id team_a.id team_b.id none (pos 0) (pos 0) MatchStatus.scheduled none
  pure tt

-- The matches and their history.
unfoldable pub seed_matches : List Team → List Tournament → Exec World (Unit {0})
seed_matches teams tournaments = do
  for_each (seed_finished_match teams tournaments) finished_matches
  for_each (seed_scheduled_match teams tournaments) scheduled_matches
  pure tt

unfoldable pub seed_tournaments : List User → Exec World (List Tournament)
seed_tournaments organizers = do
  first ← pick organizers 0
  spring ←
      seed_tournament "Spring Cup 2025" TournamentStatus.finished Format.single_elimination 4 20148
        20162 first
  second ← pick organizers 1
  summer ←
      seed_tournament "Summer League 2026" TournamentStatus.ongoing Format.round_robin 4 20605 20634
        second
  third ← pick organizers 2
  autumn ←
      seed_tournament "Autumn Championship 2026" TournamentStatus.open_ Format.single_elimination 8
        20697 20716 third
  pure (spring ∷ summer ∷ autumn ∷ [])

unfoldable pub seed_registrations : List Team → List Tournament → Exec World (Unit {0})
seed_registrations teams tournaments = do
  spring ← pick tournaments 0
  summer ← pick tournaments 1
  autumn ← pick tournaments 2
  for_each (seed_registration spring) (take 4 teams)
  for_each (seed_registration summer) (take 4 teams)
  for_each (seed_registration autumn) teams
  pure tt

-- `make_password` salts what it hashes: the hash may differ from user to user.
module _ (make_password : ℕ → String → String) where
  unfoldable pub seed_users : Exec World (List User × List User)
  seed_users = do
    seed_user make_password "admin" Role.admin "admin1234"
    organizers ←
        for_each (λ name. seed_user make_password name Role.organizer "password")
          (numbered "organizer" 3)
    players ←
        for_each (λ name. seed_user make_password name Role.player "password")
          (numbered "player" 16)
    pure (organizers, players)

  -- `_seed`
  unfoldable pub seed : Exec World (Unit {0})
  seed = do
    people ← seed_users
    teams ← for_each (λ pair. seed_team pair.0 pair.1) (deal (numbered "Team " 6) people.0 people.0)
    for_each (λ pair. seed_member pair.0 pair.1) (deal people.1 teams teams)
    tournaments ← seed_tournaments people.0
    seed_registrations teams tournaments
    seed_matches teams tournaments

  -- `handle`, with the option `--clear` and the setting `DEBUG`.
  unfoldable pub handle : Bool → Bool → Exec World (Unit {0})
  handle clear_first debug =
      if clear_first && not debug
      then raise system_exit
      else (do if clear_first then clear else pure tt; seed)
