-- ===== src/Models/Tables.antt =====
-- What the ORM calls of the services do to the tables, with the constraints that models.py
-- declares: an integer column holds 32 bits, and a foreign key names a row.
use tournament_platform_sdd.Base.{
  ℕ, ℤ, pos, negsuc, leb_ℤ, Bool, true, ◌&&◌, ◌==◌, if◌then◌else◌, List, ◌∷◌, [], ◌++◌, Option,
  none, some, find?, any, update_where,
}
use tournament_platform_sdd.Exec.{Exec, ok, err, integrity_error, data_error}
use tournament_platform_sdd.Models.{World, User, Team, Tournament, Match, TeamEloHistory}

-- The value fits an `IntegerField`.
abbrev pub fits_int4 : ℤ → Bool
fits_int4 n = leb_ℤ (negsuc 2147483647) n && leb_ℤ n (pos 2147483647)

abbrev pub find_user : ℕ → List User → Option User
find_user k = find? (λ u. u.id == k)

abbrev pub find_team : ℕ → List Team → Option Team
find_team k = find? (λ t. t.id == k)

abbrev pub find_match : ℕ → List Match → Option Match
find_match k = find? (λ m. m.id == k)

abbrev pub find_tournament : ℕ → List Tournament → Option Tournament
find_tournament k = find? (λ t. t.id == k)

-- `user.save(update_fields=["elo"])`
unfoldable pub save_user_elo : ℕ → ℤ → Exec World (Unit {0})
save_user_elo k elo w =
    if fits_int4 elo
    then (
      ok tt,
      record w { users = update_where (λ u. u.id == k) (λ u. record u { elo = elo }) w.users },
    )
    else (err data_error, w)

-- `team.save(update_fields=["elo"])`
unfoldable pub save_team_elo : ℕ → ℤ → Exec World (Unit {0})
save_team_elo k elo w =
    if fits_int4 elo
    then (
      ok tt,
      record w { teams = update_where (λ t. t.id == k) (λ t. record t { elo = elo }) w.teams },
    )
    else (err data_error, w)

-- The row of this team and this match is there.
abbrev pub has_team_history : ℕ → ℕ → List TeamEloHistory → Bool
has_team_history team match_id = any (λ h. h.team_id == team && h.match_id == match_id)

-- `EloHistory.objects.create` of apps/teams, with its constraint on the pair of team and match
unfoldable pub create_team_history : ℕ → ℕ → ℤ → ℤ → Exec World (Unit {0})
create_team_history team match_id before after w =
    if has_team_history team match_id w.team_elo_history then (err integrity_error, w) else (
      ok tt,
      record w {
        team_elo_history =
            w.team_elo_history
            ++ record {
              team_id = team;
              match_id = match_id;
              elo_before = before;
              elo_after = after;
              created_at = w.now;
            }
              ∷ [];
      },
    )

-- A winner, where the match has one, is a team.
abbrev winner_exists : Option ℕ → List Team → Bool
winner_exists none teams = true
winner_exists (some k) teams = any (λ t. t.id == k) teams

-- `match.save()` of a row that is there
unfoldable pub save_match : Match → Exec World (Unit {0})
save_match m w =
    if fits_int4 m.score_a && fits_int4 m.score_b
    then (if winner_exists m.winner_team_id w.teams
        then (ok tt, record w { matches = update_where (λ x. x.id == m.id) (λ x. m) w.matches })
        else (err integrity_error, w))
    else (err data_error, w)
