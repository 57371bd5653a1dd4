-- ===== src/Views/Rankings.antt =====
-- `RankingListView` and `TeamEloHistoryView` of django-api/app/apps/teams/views.py, with the fields
-- of their serializers (serializers/output.py), before the framework cuts the list into pages.
use tournament_platform_sdd.Base.{
  ℕ, ℤ, leb, leb_ℤ, ◌==◌, ◌&&◌, if◌then◌else◌, Bool, Option, none, some, String, str_eq, List, [],
  ◌∷◌, map, filter, any, order_by,
}
use tournament_platform_sdd.Exec.{Result, ok, err, value_error, http404}
use tournament_platform_sdd.Models.{World, Team, Match, TeamEloHistory}
use tournament_platform_sdd.Models.Tables.{find_team}
use tournament_platform_sdd.Platform.Balance.{balance}

-- `RankingSerializer`
pub record RankingRow : Type 0 where
  pub id : ℕ
  pub name : String
  pub elo : ℤ

abbrev ranking_row : Team → RankingRow
ranking_row t = record { id = t.id; name = t.name; elo = t.elo }

-- `order_by("-elo")`
abbrev pub higher_team : Team → Team → Bool
higher_team t u = leb_ℤ u.elo t.elo

unfoldable pub overall_ranking : World → List RankingRow
overall_ranking w = map ranking_row (order_by higher_team w.teams)

-- `TournamentRankingSerializer`
pub record DeltaRow : Type 0 where
  pub id : ℕ
  pub name : String
  pub elo_delta : ℤ

-- `match__tournament_id=tournament_id`
abbrev pub in_tournament : ℕ → List Match → TeamEloHistory → Bool
in_tournament k ms h = any (λ m. m.id == h.match_id && m.tournament_id == k) ms

-- The rows are grouped by team; `Sum(F("elo_after") - F("elo_before"))` is their balance.
unfoldable pub delta_rows : List TeamEloHistory → List Team → List DeltaRow
delta_rows hs [] = []
delta_rows hs (t ∷ ts) =
    let rest = delta_rows hs ts in
    if any (λ h. h.team_id == t.id) hs
    then record { id = t.id; name = t.name; elo_delta = balance t.id hs } ∷ rest
    else rest

-- `order_by("-elo_delta")`
abbrev pub higher_delta : DeltaRow → DeltaRow → Bool
higher_delta a b = leb_ℤ b.elo_delta a.elo_delta

unfoldable pub tournament_ranking : ℕ → World → List DeltaRow
tournament_ranking k w =
    order_by higher_delta
      (delta_rows (filter (in_tournament k w.matches) w.team_elo_history) w.teams)

pub data Ranking : Type 0 where
  overall : List RankingRow → Ranking
  of_tournament : List DeltaRow → Ranking

-- The query parameter `tournament_id`, which counts as missing where it is empty; `int_of` is
-- Django's reading of it as a number, whose `ValueError` nothing catches.
unfoldable pub list_rankings : (String → Option ℕ) → Option String → World → Result Ranking
list_rankings int_of none w = ok (overall (overall_ranking w))
list_rankings int_of (some text) w =
    if str_eq text "" then ok (overall (overall_ranking w)) else elim (int_of text) [
      | none ↦ err value_error
      | some k ↦ ok (of_tournament (tournament_ranking k w))
    ]

-- `order_by("-created_at")`
abbrev pub newer : TeamEloHistory → TeamEloHistory → Bool
newer g h = leb h.created_at g.created_at

-- `TeamEloHistoryView.get`
unfoldable pub elo_history : ℕ → World → Result (List TeamEloHistory)
elo_history k w = elim (find_team k w.teams) [
  | none ↦ err http404
  | some t ↦ ok (order_by newer (filter (λ h. h.team_id == k) w.team_elo_history))
]
