-- ===== src/SeedData/Clear.antt =====
-- `_clear` of the command `seed_data`, with what the database does to rows that name a deleted one:
-- `CASCADE` deletes them, and `PROTECT` refuses the deletion.
use tournament_platform_sdd.Base.{
  ℕ, ◌==◌, ◌||◌, Bool, false, not, if◌then◌else◌, none, some, [], any, filter,
}
use tournament_platform_sdd.Exec.{Exec, ok, err, modify, ◌>>◌, integrity_error}
use tournament_platform_sdd.Models.{World, Match}

-- The row is in the table.
abbrev has_match : World → ℕ → Bool
has_match w k = any (λ m. m.id == k) w.matches

abbrev has_team : World → ℕ → Bool
has_team w k = any (λ t. t.id == k) w.teams

abbrev has_user : World → ℕ → Bool
has_user w k = any (λ u. u.id == k) w.users

abbrev has_tournament : World → ℕ → Bool
has_tournament w k = any (λ t. t.id == k) w.tournaments

-- `Match.objects.all().delete()`
unfoldable pub delete_matches : World → World
delete_matches w = record w {
  matches = [];
  user_elo_history = filter (λ h. not (has_match w h.match_id)) w.user_elo_history;
  team_elo_history = filter (λ h. not (has_match w h.match_id)) w.team_elo_history;
  notification_log = filter (λ n. not (has_match w n.match_id)) w.notification_log;
}

-- `Tournament.objects.all().delete()`, once there are no matches.
unfoldable pub delete_tournaments : World → World
delete_tournaments w = record w {
  tournaments = [];
  matches = filter (λ m. not (has_tournament w m.tournament_id)) w.matches;
  tournament_teams = filter (λ r. not (has_tournament w r.tournament_id)) w.tournament_teams;
}

-- A match protects its teams.
abbrev names_team : World → Match → Bool
names_team w m =
    has_team w m.team_a_id
    || has_team w m.team_b_id
    || (elim m.winner_team_id [ none ↦ false | some k ↦ has_team w k ])

-- `Team.objects.all().delete()`
unfoldable pub delete_teams : Exec World (Unit {0})
delete_teams w = if any (names_team w) w.matches then (err integrity_error, w) else (
  ok tt,
  record w {
    teams = [];
    team_members = filter (λ m. not (has_team w m.team_id)) w.team_members;
    tournament_teams = filter (λ r. not (has_team w r.team_id)) w.tournament_teams;
    team_elo_history = filter (λ h. not (has_team w h.team_id)) w.team_elo_history;
    notification_log = filter (λ n. not (has_team w n.team_id)) w.notification_log;
  },
)

-- `User.objects.all().delete()`: a team protects its owner, and a tournament who created it.
unfoldable pub delete_users : Exec World (Unit {0})
delete_users w =
    if any (λ t. has_user w t.owner_id) w.teams
      || any (λ t. has_user w t.created_by_id) w.tournaments
    then (err integrity_error, w)
    else (
      ok tt,
      record w {
        users = [];
        team_members = filter (λ m. not (has_user w m.user_id)) w.team_members;
        user_elo_history = filter (λ h. not (has_user w h.user_id)) w.user_elo_history;
      },
    )

unfoldable pub clear : Exec World (Unit {0})
clear = do
  modify (λ w. record w { user_elo_history = [] })
  modify delete_matches
  modify (λ w. record w { tournament_teams = [] })
  modify delete_tournaments
  modify (λ w. record w { team_members = [] })
  delete_teams
  delete_users
