-- ===== src/Views/TeamList.antt =====
-- The list of `TeamViewSet` with its filter `TeamFilterSet`, in django-api/app/apps/teams/views.py.
-- The filter joins the teams with the registrations: a team has a row for each that fits.
use tournament_platform_sdd.Base.{
  ℕ, ◌≤◌, ◌≡◌, refl, ◌∙◌, Bool, true, Bool-cases, inl, inr, ◌==◌, ◌&&◌, Option, none, some, String,
  List, [], ◌∷◌, ◌++◌, count_where, count_where-append, count_where-zero, count_where-order_by,
  order_by, any, arith, if◌then◌else◌,
}
use tournament_platform_sdd.Models.{World, Team, TournamentTeam}

-- `tournamentteam__tournament_id`
abbrev pub registers : ℕ → Team → TournamentTeam → Bool
registers k t r = r.tournament_id == k && r.team_id == t.id

-- The row of the team for each registration that fits.
unfoldable pub rows_of_team : ℕ → Team → List TournamentTeam → List Team
rows_of_team k t [] = []
rows_of_team k t (r ∷ rs) =
    let rest = rows_of_team k t rs in if registers k t r then t ∷ rest else rest

unfoldable pub joined_teams : ℕ → List TournamentTeam → List Team → List Team
joined_teams k rs [] = []
joined_teams k rs (t ∷ ts) = rows_of_team k t rs ++ joined_teams k rs ts

-- `order_by("name")`, by the database's order of texts, and the filter.
unfoldable pub list_teams : (String → String → Bool) → Option ℕ → World → List Team
list_teams before none w = order_by (λ t u. before t.name u.name) w.teams
list_teams before (some k) w =
    order_by (λ t u. before t.name u.name) (joined_teams k w.tournament_teams w.teams)

-- The unique constraint of the registrations.
abbrev pub IsRegisteredOnce : World → Type 0
IsRegisteredOnce w = (k : ℕ) (t : Team) → count_where (registers k t) w.tournament_teams ≤ 1

abbrev pub is_registered : ℕ → List TournamentTeam → Team → Bool
is_registered k rs t = any (registers k t) rs

rows_of_team-count :
    (k : ℕ) (p : Team → Bool) (t : Team) (rs : List TournamentTeam)
    → count_where p (rows_of_team k t rs) ≡ (if p t then count_where (registers k t) rs else 0)
unfolding rows_of_team
rows_of_team-count k p t [] = ground arith
rows_of_team-count k p t (r ∷ rs) = ground (arith, rows_of_team-count k p t rs)

pos_of_any : {A : Type 0} (p : A → Bool) (xs : List A) → any p xs ≡ true → 1 ≤ count_where p xs
pos_of_any p [] h = cc
pos_of_any p (x ∷ xs) h = ground (arith, pos_of_any p xs)

joined_teams-count :
    (k : ℕ) (p : Team → Bool) (rs : List TournamentTeam) (ts : List Team)
    → ((t : Team) → count_where (registers k t) rs ≤ 1)
    → count_where p (joined_teams k rs ts) ≡ count_where (λ t. is_registered k rs t && p t) ts
unfolding joined_teams
joined_teams-count k p rs [] once = refl
joined_teams-count k p rs (t ∷ ts) once =
    count_where-append p (rows_of_team k t rs) (joined_teams k rs ts)
    ∙ elim (Bool-cases (is_registered k rs t)) [
      | inl known ↦ rw known (
          ground (
            arith,
            rows_of_team-count k p t rs,
            joined_teams-count k p rs ts once,
            once t,
            pos_of_any (registers k t) rs known,
          ))
      | inr unknown ↦ rw unknown (
          ground (
            arith,
            rows_of_team-count k p t rs,
            joined_teams-count k p rs ts once,
            count_where-zero (registers k t) rs unknown,
          ))
    ]

-- The list without the filter has exactly the teams of the table. Where no team is registered twice
-- for a tournament, the list for the tournament has exactly the teams that are registered for it,
-- as often as the table has them: the join doubles none.
pub list_teams_registered :
    (before : String → String → Bool) (k : ℕ) (w : World) (p : Team → Bool)
    → IsRegisteredOnce w
    → (count_where p (list_teams before none w) ≡ count_where p w.teams)
      × (count_where p (list_teams before (some k) w)
          ≡ count_where (λ t. is_registered k w.tournament_teams t && p t) w.teams)
unfolding list_teams
list_teams_registered before k w p once = (
  count_where-order_by (λ t u. before t.name u.name) p w.teams,
  count_where-order_by (λ t u. before t.name u.name) p (joined_teams k w.tournament_teams w.teams)
      ∙ joined_teams-count k p w.tournament_teams w.teams (once k),
)
