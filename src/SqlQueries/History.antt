-- ===== src/SqlQueries/History.antt =====
-- The history of a team has each of its matches once.
use tournament_platform_sdd.Base.{
  ℕ, ◌≡◌, refl, ◌∙◌, Bool, true, false, ◌&&◌, ◌==◌, Option, none, some, List, [], ◌∷◌, count_where,
  count_where-order_by, All, not, arith, inl, inr, Bool-cases,
}
use tournament_platform_sdd.Models.{World, Team, Match}
use tournament_platform_sdd.Models.Tables.{find_team}
use tournament_platform_sdd.Views.MatchCreation.{winner_plays}
use tournament_platform_sdd.Platform.Steps.{WinnerPlays}
use tournament_platform_sdd.Platform.Winners.{AllWinnersPlay}
use tournament_platform_sdd.SqlQueries.Queries.{
  is_won_by, involves, is_win, HistoryRow, history_rows, played_before, get_team_history,
}

-- Both teams of a match are in the table: the foreign keys.
pub record HasTeams (ts : List Team) (m : Match) : Type 0 where
  pub team_a : Team
  pub team_b : Team
  pub row_a : find_team m.team_a_id ts ≡ some team_a
  pub row_b : find_team m.team_b_id ts ≡ some team_b

-- A match that a team won is one of its matches.
won-involves : (k : ℕ) (m : Match) → WinnerPlays m → is_won_by k m ≡ true → involves k m ≡ true
won-involves k m plays won = at_winner m.winner_team_id plays won
  where
    at_winner :
        (o : Option ℕ)
        → winner_plays o m.team_a_id m.team_b_id ≡ true
        → (elim o as (λ x. Bool) [ none ↦ false | some i ↦ i == k ]) ≡ true
        → involves k m ≡ true
    at_winner none h h' = cc
    at_winner (some i) h h' = ground arith

abbrev any_row : HistoryRow → Bool
any_row row = true

abbrev is_loss : HistoryRow → Bool
is_loss row = not (is_win row)

-- A match of the team that it did not win, played or not.
abbrev pub is_not_won : ℕ → Match → Bool
is_not_won k m = involves k m && not (is_won_by k m)

history_rows-count :
    (k : ℕ) (ms : List Match) (ts : List Team)
    → All (HasTeams ts) ms
    → All WinnerPlays ms
    → (count_where any_row (history_rows k ms ts) ≡ count_where (involves k) ms)
      × (count_where is_win (history_rows k ms ts) ≡ count_where (is_won_by k) ms)
      × (count_where is_loss (history_rows k ms ts) ≡ count_where (is_not_won k) ms)
unfolding history_rows
history_rows-count k [] ts exist play = (refl, refl, refl)
history_rows-count k (m ∷ ms) ts exist play =
    let ih = history_rows-count k ms ts exist.1 play.1 in
    rw (exist.0.row_a, exist.0.row_b, history_rows)
      (elim (Bool-cases (is_won_by k m)) [
        | inl won ↦ let mine = won-involves k m play.0 won in rw (mine, won) (omega (arith, ih))
        | inr not_won ↦ elim (Bool-cases (involves k m)) [
          | inl mine ↦ rw (mine, not_won) (omega (arith, ih))
          | inr other ↦ rw (other, not_won) (omega (arith, ih))
        ]
      ])

-- Where both teams of every match are in the table and its winner, if it has one, is one of them:
-- the history of a team has one row for each match of the team, as many of them wins as there are
-- matches that the team won. Every other match of the team is a row with a loss, whether it is
-- played or not.
pub get_team_history_count :
    (k : ℕ) (w : World)
    → All (HasTeams w.teams) w.matches
    → AllWinnersPlay w
    → let history = get_team_history k w in
      (count_where (λ row. true) history ≡ count_where (involves k) w.matches)
      × (count_where is_win history ≡ count_where (is_won_by k) w.matches)
      × (count_where (λ row. not (is_win row)) history ≡ count_where (is_not_won k) w.matches)
unfolding get_team_history
get_team_history_count k w exist play =
    let (all, wins, losses) = history_rows-count k w.matches w.teams exist play in
    (
      count_where-order_by played_before any_row (history_rows k w.matches w.teams) ∙ all,
      count_where-order_by played_before is_win (history_rows k w.matches w.teams) ∙ wins,
      count_where-order_by played_before is_loss (history_rows k w.matches w.teams) ∙ losses,
    )
