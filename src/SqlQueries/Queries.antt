-- ===== src/SqlQueries/Queries.antt =====
-- The queries of django-api/app/apps/tournaments/sql_queries.py, as functions of the tables. An
-- inner join drops a row that has no partner.
use tournament_platform_sdd.Base.{
  ℕ, ℤ, leb, ltb, leb_ℤ, Bool, true, false, ◌||◌, ◌==◌, if◌then◌else◌, Option, none, some, String,
  List, [], ◌∷◌, map, filter, count_where, take, order_by,
}
use tournament_platform_sdd.Models.{World, User, Team, Match}
use tournament_platform_sdd.Models.Tables.{find_team}

-- `ORDER BY elo DESC`
abbrev pub higher_rated : User → User → Bool
higher_rated u v = leb_ℤ v.elo u.elo

-- `get_leaderboard`
unfoldable pub get_leaderboard : ℕ → World → List (String × ℤ)
get_leaderboard limit w =
    map (λ u. (u.username, u.elo)) (take limit (order_by higher_rated w.users))

-- `m.winner_team_id = t.id`
abbrev pub is_won_by : ℕ → Match → Bool
is_won_by k m = elim m.winner_team_id [ none ↦ false | some j ↦ j == k ]

pub record WinRow : Type 0 where
  pub team_name : String
  pub win_count : ℕ

-- `ORDER BY win_count DESC`
abbrev pub more_wins : WinRow → WinRow → Bool
more_wins a b = leb b.win_count a.win_count

-- The join of the teams with the matches that they won, grouped by team: a group has a row.
unfoldable pub win_rows : List Match → List Team → List WinRow
win_rows ms [] = []
win_rows ms (t ∷ ts) =
    let rest = win_rows ms ts in
    let wins = count_where (is_won_by t.id) ms in
    if ltb 0 wins then record { team_name = t.name; win_count = wins } ∷ rest else rest

-- `get_team_wins_all_time`
unfoldable pub get_team_wins_all_time : World → List WinRow
get_team_wins_all_time w = order_by more_wins (win_rows w.matches w.teams)

-- `get_team_wins_per_tournament`
unfoldable pub get_team_wins_per_tournament : ℕ → World → List WinRow
get_team_wins_per_tournament tournament_id w =
    order_by more_wins (win_rows (filter (λ m. m.tournament_id == tournament_id) w.matches) w.teams)

pub record NamedMatch : Type 0 where
  pub match_id : ℕ
  pub team_a_name : String
  pub team_b_name : String
  pub winner_team_id : Option ℕ
  pub played_at : Option ℕ

abbrev named_match : Match → Team → Team → NamedMatch
named_match m a b = record {
  match_id = m.id;
  team_a_name = a.name;
  team_b_name = b.name;
  winner_team_id = m.winner_team_id;
  played_at = m.played_at;
}

-- The join of the matches with both their teams.
unfoldable pub named_matches : List Match → List Team → List NamedMatch
named_matches [] ts = []
named_matches (m ∷ ms) ts =
    let rest = named_matches ms ts in
    elim (find_team m.team_a_id ts) [
      | none ↦ rest
      | some a ↦ elim (find_team m.team_b_id ts) [ none ↦ rest | some b ↦ named_match m a b ∷ rest ]
    ]

-- `get_matches_with_teams`
unfoldable pub get_matches_with_teams : World → List NamedMatch
get_matches_with_teams w = named_matches w.matches w.teams

pub data WinOrLoss : Type 0 where
  win loss : WinOrLoss

pub record HistoryRow : Type 0 where
  pub match_id : ℕ
  pub played_at : Option ℕ
  pub opponent : String
  pub result : WinOrLoss

abbrev pub is_win : HistoryRow → Bool
is_win row = elim row.result [ win ↦ true | loss ↦ false ]

-- `m.team_a_id = … OR m.team_b_id = …`
abbrev pub involves : ℕ → Match → Bool
involves k m = m.team_a_id == k || m.team_b_id == k

abbrev history_of : ℕ → Match → Team → Team → HistoryRow
history_of k m a b = record {
  match_id = m.id;
  played_at = m.played_at;
  opponent = if m.team_a_id == k then b.name else a.name;
  result = if is_won_by k m then win else loss;
}

unfoldable pub history_rows : ℕ → List Match → List Team → List HistoryRow
history_rows k [] ts = []
history_rows k (m ∷ ms) ts =
    let rest = history_rows k ms ts in
    elim (find_team m.team_a_id ts) [
      | none ↦ rest
      | some a ↦ elim (find_team m.team_b_id ts) [
        | none ↦ rest
        | some b ↦ if involves k m then history_of k m a b ∷ rest else rest
      ]
    ]

-- `ORDER BY m.played_at ASC`, in which a missing time stands last.
abbrev pub played_before : HistoryRow → HistoryRow → Bool
played_before a b = elim b.played_at [
  | none ↦ true
  | some t ↦ elim a.played_at [ none ↦ false | some s ↦ leb s t ]
]

-- `get_team_history`
unfoldable pub get_team_history : ℕ → World → List HistoryRow
get_team_history k w = order_by played_before (history_rows k w.matches w.teams)
