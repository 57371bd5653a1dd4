-- ===== src/Views/RankingTable.antt =====
-- What the rankings and the history of a team show.
use tournament_platform_sdd.Base.{
  ℕ, ◌≡◌, refl, ◌∙◌, Bool, true, false, Bool-cases, ◌==◌, ==_refl, ◌&&◌, inl, inr, none, some, List,
  [], ◌∷◌, filter, any, All, count_where, count_where-order_by, count_where-filter, order_by,
  IsOrdered, order_by-IsOrdered, All-order_by, arith,
}
use tournament_platform_sdd.Exec.{ok, err, http404}
use tournament_platform_sdd.Models.{World, Team, TeamEloHistory}
use tournament_platform_sdd.Models.Tables.{find_team}
use tournament_platform_sdd.Platform.Balance.{balance}
use tournament_platform_sdd.SqlQueries.Wins.{HasUniqueIds}
use tournament_platform_sdd.Views.Rankings.{
  in_tournament, DeltaRow, delta_rows, higher_delta, tournament_ranking, newer, elo_history,
}

-- The row says of a team of the table what the ledger says of it.
abbrev pub IsTold : List TeamEloHistory → List Team → DeltaRow → Type 0
IsTold hs ts row =
    (t : Team) × (find_team row.id ts ≡ some t)
    × (row.name ≡ t.name)
    × (row.elo_delta ≡ balance row.id hs)

-- The lookup passes by a row of another id.
find_team_behind :
    (t : Team) (ts : List Team) (k : ℕ) {u : Team}
    → any (λ x. x.id == t.id) ts ≡ false
    → find_team k ts ≡ some u
    → find_team k (t ∷ ts) ≡ some u
find_team_behind t ts k {u} new found = elim (Bool-cases (t.id == k)) [
  | inl same ↦ cc (behind ts found (ground arith) new)
  | inr other ↦ rw other found
]
  where
    behind :
        (xs : List Team)
        → find_team k xs ≡ some u
        → t.id ≡ k
        → any (λ x. x.id == t.id) xs ≡ false
        → true ≡ false
    behind [] h e n = cc
    behind (x ∷ xs) h e n = ground (arith, behind xs)

-- A table with one more row in front, of another id.
IsTold-cons :
    (hs : List TeamEloHistory) (t : Team) (ts : List Team) (rows : List DeltaRow)
    → any (λ u. u.id == t.id) ts ≡ false
    → All (IsTold hs ts) rows
    → All (IsTold hs (t ∷ ts)) rows
IsTold-cons hs t ts [] new told = tt
IsTold-cons hs t ts (row ∷ rows) new told =
    let (u, found, name, delta) = told.0 in
    ((u, find_team_behind t ts row.id new found, name, delta), IsTold-cons hs t ts rows new told.1)

delta_rows-IsTold :
    (hs : List TeamEloHistory) (ts : List Team)
    → HasUniqueIds ts
    → All (IsTold hs ts) (delta_rows hs ts)
unfolding delta_rows
delta_rows-IsTold hs [] unique = tt
delta_rows-IsTold hs (t ∷ ts) unique =
    let rest = IsTold-cons hs t ts (delta_rows hs ts) unique.0 (delta_rows-IsTold hs ts unique.1) in
    elim (Bool-cases (any (λ h. h.team_id == t.id) hs)) [
      | inl played ↦ rw played ((t, rw (==_refl t.id) refl, refl, refl), rest)
      | inr idle ↦ rw idle rest
    ]

-- The ranking of a tournament is ordered by the points won, the highest first, and each row is one
-- of a team of the table, under its name, with the sum of the changes of its rating in the matches
-- of the tournament.
pub tournament_ranking-IsTold :
    (k : ℕ) (w : World)
    → HasUniqueIds w.teams
    → let rows = tournament_ranking k w in
      let played = filter (in_tournament k w.matches) w.team_elo_history in
      IsOrdered higher_delta rows × All (IsTold played w.teams) rows
unfolding tournament_ranking
tournament_ranking-IsTold k w unique =
    let played = filter (in_tournament k w.matches) w.team_elo_history in
    (
      order_by-IsOrdered higher_delta (λ a b h. ground arith) (λ a b c h i. ground arith)
          (delta_rows played w.teams),
      All-order_by higher_delta (IsTold played w.teams) (delta_rows played w.teams)
          (delta_rows-IsTold played w.teams unique),
    )

-- The history of an unknown team is not found. That of a team is ordered by time, the newest first,
-- and has exactly the team's rows of the table.
pub elo_history_rows :
    (k : ℕ) (w : World)
    → (find_team k w.teams ≡ none → elo_history k w ≡ err http404)
      × ((t : Team)
          → find_team k w.teams ≡ some t
          → (rows : List TeamEloHistory) × (elo_history k w ≡ ok rows)
            × IsOrdered newer rows
            × ((p : TeamEloHistory → Bool)
                → count_where p rows ≡ count_where (λ h. h.team_id == k && p h) w.team_elo_history))
unfolding elo_history
elo_history_rows k w =
    let mine = filter (λ h. h.team_id == k) w.team_elo_history in
    (
      λ gone. rw (gone, elo_history),
      λ t found. (
        order_by newer mine,
        rw (found, elo_history),
        order_by-IsOrdered newer (λ g h e. ground arith) (λ g h i e f. ground arith) mine,
        λ p.
            count_where-order_by newer p mine
            ∙ count_where-filter p (λ h. h.team_id == k) w.team_elo_history,
      ),
    )
