-- ===== src/SqlQueries/Wins.antt =====
-- The tables of wins count each won match once.
use tournament_platform_sdd.Base.{
  ℕ, ◌+◌, ◌≡◌, refl, ◌∙◌, Bool, true, false, ◌==◌, ltb, if◌then◌else◌, Option, none, some, String,
  List, [], ◌∷◌, any, any-implies, filter, count_where, count_where-or, total, total-order_by,
  IsOrdered, order_by-IsOrdered, arith,
}
use tournament_platform_sdd.Models.{World, Team, Match}
use tournament_platform_sdd.SqlQueries.Queries.{
  is_won_by, WinRow, more_wins, win_rows, get_team_wins_all_time, get_team_wins_per_tournament,
}

-- The ids of the teams, which are their primary key.
abbrev pub HasUniqueIds : List Team → Type 0
HasUniqueIds [] = Unit
HasUniqueIds (t ∷ ts) = (any (λ u. u.id == t.id) ts ≡ false) × HasUniqueIds ts

-- The match has a winner in the table.
abbrev pub is_won : List Team → Match → Bool
is_won ts m = any (λ t. is_won_by t.id m) ts

same_winner : (j k : ℕ) (m : Match) → is_won_by j m ≡ true → is_won_by k m ≡ true → (k == j) ≡ true
same_winner j k m won won' = same m.winner_team_id won won'
  where
    same :
        (o : Option ℕ)
        → (elim o as (λ x. Bool) [ none ↦ false | some i ↦ i == j ]) ≡ true
        → (elim o as (λ x. Bool) [ none ↦ false | some i ↦ i == k ]) ≡ true
        → (k == j) ≡ true
    same none h h' = cc
    same (some i) h h' = ground arith

-- A match that one team won, no other team of the table won.
not_won_twice :
    (t : Team) (ts : List Team) (m : Match)
    → any (λ u. u.id == t.id) ts ≡ false
    → is_won_by t.id m ≡ true
    → is_won ts m ≡ false
not_won_twice t ts m new won =
    any-implies (λ u. is_won_by u.id m) (λ u. u.id == t.id) ts
      (λ u won'. same_winner t.id u.id m won won') new

abbrev pub wins : WinRow → ℕ
wins row = row.win_count

-- A team without a win has no row, and none is missed.
row_or_none :
    (name : String) (n : ℕ) (rest : List WinRow)
    → total wins (if ltb 0 n then record { team_name = name; win_count = n } ∷ rest else rest)
      ≡ n + total wins rest
row_or_none name n rest = ground arith

no_team : (ms : List Match) → count_where (is_won []) ms ≡ 0
no_team [] = refl
no_team (m ∷ ms) = omega (arith, no_team ms)

win_rows-total :
    (ms : List Match) (ts : List Team)
    → HasUniqueIds ts
    → total wins (win_rows ms ts) ≡ count_where (is_won ts) ms
unfolding win_rows
win_rows-total ms [] unique = omega (arith, no_team ms)
win_rows-total ms (t ∷ ts) unique =
    row_or_none t.name (count_where (is_won_by t.id) ms) (win_rows ms ts)
    ∙ omega (
      arith,
      win_rows-total ms ts unique.1,
      count_where-or (is_won_by t.id) (is_won ts) ms (λ m. not_won_twice t ts m unique.0),
    )

-- Both tables of wins are ordered by the number of wins, the highest first. The numbers of the
-- all-time table add up to the number of matches that a team of the table won, and those of a
-- tournament to the number of its matches that one won: no win is lost, and none is counted twice.
pub get_team_wins-total :
    (tournament_id : ℕ) (w : World)
    → HasUniqueIds w.teams
    → let all_time = get_team_wins_all_time w in
      let one = get_team_wins_per_tournament tournament_id w in
      IsOrdered more_wins all_time
      × IsOrdered more_wins one
      × (total wins all_time ≡ count_where (is_won w.teams) w.matches)
      × (total wins one
          ≡ count_where (is_won w.teams) (filter (λ m. m.tournament_id == tournament_id) w.matches))
unfolding get_team_wins_all_time get_team_wins_per_tournament
get_team_wins-total tournament_id w unique =
    let played = filter (λ m. m.tournament_id == tournament_id) w.matches in
    (
      order_by-IsOrdered more_wins (λ a b h. ground arith) (λ a b c h k. ground arith)
          (win_rows w.matches w.teams),
      order_by-IsOrdered more_wins (λ a b h. ground arith) (λ a b c h k. ground arith)
          (win_rows played w.teams),
      total-order_by more_wins wins (win_rows w.matches w.teams)
          ∙ win_rows-total w.matches w.teams unique,
      total-order_by more_wins wins (win_rows played w.teams)
          ∙ win_rows-total played w.teams unique,
    )
