-- ===== src/Tournaments/UserRating.antt =====
-- `MatchService._update_team_elo` and `_update_team_elo_by_match_id` of
-- django-api/app/apps/tournaments/services.py: the rating of a match's players, each against the
-- initial rating.
use tournament_platform_sdd.Base.{ℕ, ℤ, ◌==◌, Option, none, some, List, [], ◌∷◌, ◌++◌, filter}
use tournament_platform_sdd.Exec.{
  Exec, pure, lift, gets, modify, or_raise, ◌>>=◌, ◌>>◌, does_not_exist,
}
use tournament_platform_sdd.Models.{World, Match, User, TeamMember, UserEloHistory}
use tournament_platform_sdd.Models.Tables.{find_user, find_match, save_user_elo}
use tournament_platform_sdd.Floats.{PyFloat}
use tournament_platform_sdd.Rating.{initial_elo, update_elo}
use tournament_platform_sdd.Teams.Service.{loser_id}

-- The rows of `TeamMember.objects.select_related("user").filter(team_id=…)`, as their users: the
-- values that the users had when the list was made.
unfoldable pub joined_users : List TeamMember → List User → List User
joined_users [] users = []
joined_users (m ∷ ms) users = elim (find_user m.user_id users) [
  | none ↦ joined_users ms users
  | some u ↦ u ∷ joined_users ms users
]

unfoldable pub members_of : Option ℕ → World → List User
members_of none w = []
members_of (some team) w = joined_users (filter (λ m. m.team_id == team) w.team_members) w.users

-- A row of the history that the loop collects.
abbrev pub elo_record : World → Match → User → ℤ → UserEloHistory
elo_record w m user new_elo = record {
  user_id = user.id;
  match_id = m.id;
  elo_before = user.elo;
  elo_after = new_elo;
  changed_at = w.now;
}

-- `if elo_records: EloHistory.objects.bulk_create(elo_records)`
unfoldable pub bulk_create : List UserEloHistory → Exec World (Unit {0})
bulk_create [] = pure tt
bulk_create (row ∷ rows) =
    modify (λ w. record w { user_elo_history = w.user_elo_history ++ (row ∷ rows) })

-- A `for` loop over members, and the records that it collects.
unfoldable pub for_members :
    (User → Exec World UserEloHistory) → List User → Exec World (List UserEloHistory)
for_members round [] = pure []
for_members round (user ∷ users) = do
  row ← round user
  rows ← for_members round users
  pure (row ∷ rows)

module _ (fl : PyFloat) where
  -- One round of `for member in winner_members`, with the record that it collects.
  unfoldable pub rate_winner : Match → User → Exec World UserEloHistory
  rate_winner m user = do
    ratings ← lift (update_elo fl user.elo initial_elo)
    row ← gets (λ w. elo_record w m user ratings.0)
    save_user_elo user.id ratings.0
    pure row

  -- One round of `for member in loser_members`.
  unfoldable pub rate_loser : Match → User → Exec World UserEloHistory
  rate_loser m user = do
    ratings ← lift (update_elo fl initial_elo user.elo)
    row ← gets (λ w. elo_record w m user ratings.1)
    save_user_elo user.id ratings.1
    pure row

  -- `MatchService._update_team_elo`: both lists are made before any rating is written.
  unfoldable pub update_team_elo : Match → Exec World (Unit {0})
  update_team_elo m = do
    winner_members ← gets (members_of m.winner_team_id)
    loser_members ← gets (members_of (some (loser_id m)))
    winner_records ← for_members (rate_winner m) winner_members
    loser_records ← for_members (rate_loser m) loser_members
    bulk_create (winner_records ++ loser_records)

  -- `MatchService._update_team_elo_by_match_id`
  unfoldable pub update_team_elo_by_match_id : ℕ → Exec World (Unit {0})
  update_team_elo_by_match_id match_id = do
    found ← gets (λ w. find_match match_id w.matches)
    m ← or_raise found does_not_exist
    update_team_elo m
