-- ===== src/Views/TournamentRanking.antt =====
-- The ranking of a tournament, `RankingListView` of django-api/app/apps/teams/views.py, by what the
-- tables hold.
use tournament_platform_sdd.Base.{
  ℕ, ℤ, pos, ◌+ℤ◌, ◌-ℤ◌, ◌≡◌, refl, sym, subst, ltb, ap, ◌∙◌, Bool, true, Bool-cases, ◌==◌, ==_iff,
  ==_refl, ◌&&◌, ◌⊎◌, inl, inr, some, List, [], ◌∷◌, filter, any, All, IsOrdered, order_by,
  count_where, count_where-order_by, arith, eq_of_parts, +ℤ_parts,
}
use tournament_platform_sdd.Models.{World, Team, Match, TeamEloHistory}
use tournament_platform_sdd.Models.Tables.{find_team}
use tournament_platform_sdd.Platform.Balance.{balance}
use tournament_platform_sdd.SqlQueries.Wins.{HasUniqueIds}
use tournament_platform_sdd.Views.Rankings.{
  in_tournament, DeltaRow, delta_rows, higher_delta, tournament_ranking,
}
use tournament_platform_sdd.Views.RankingTable.{IsTold, tournament_ranking-IsTold}

-- The table of matches has the match of the row, in the tournament.
abbrev pub IsPlayedIn : ℕ → List Match → TeamEloHistory → Type 0
IsPlayedIn k [] h = ⊥
IsPlayedIn k (m ∷ ms) h = ((m.id ≡ h.match_id) × (m.tournament_id ≡ k)) ⊎ IsPlayedIn k ms h

in_tournament-IsPlayedIn :
    (k : ℕ) (ms : List Match) (h : TeamEloHistory) → in_tournament k ms h ≡ true → IsPlayedIn k ms h
in_tournament-IsPlayedIn k [] h e = cc
in_tournament-IsPlayedIn k (m ∷ ms) h e =
    elim (Bool-cases (m.id == h.match_id && m.tournament_id == k)) [
      | inl here ↦ inl (ground arith)
      | inr other ↦ inr (in_tournament-IsPlayedIn k ms h (rw other at e))
    ]

IsPlayedIn-in_tournament :
    (k : ℕ) (ms : List Match) (h : TeamEloHistory) → IsPlayedIn k ms h → in_tournament k ms h ≡ true
IsPlayedIn-in_tournament k [] h e = absurd e
IsPlayedIn-in_tournament k (m ∷ ms) h (inl e) = ground arith
IsPlayedIn-in_tournament k (m ∷ ms) h (inr e) = ground (arith, IsPlayedIn-in_tournament k ms h e)

-- The row counts for the team in the tournament.
abbrev pub Counts : ℕ → ℕ → List Match → TeamEloHistory → Type 0
Counts k j ms h = (h.team_id ≡ j) × IsPlayedIn k ms h

-- `d` is the sum of the changes of the rows that count.
abbrev pub AddsUp : ℕ → ℕ → List Match → List TeamEloHistory → ℤ → Type 0
AddsUp k j ms [] d = d ≡ pos 0
AddsUp k j ms (h ∷ hs) d =
    (Counts k j ms h
      × ((rest : ℤ) × AddsUp k j ms hs rest × (d ≡ (h.elo_after -ℤ h.elo_before) +ℤ rest)))
    ⊎ ((¬ Counts k j ms h) × AddsUp k j ms hs d)

zero_left : (d : ℤ) → (pos 0 +ℤ d) ≡ d
zero_left d = eq_of_parts _ _ (omega (arith, +ℤ_parts))

balance-AddsUp :
    (k j : ℕ) (ms : List Match) (hs : List TeamEloHistory)
    → AddsUp k j ms hs (balance j (filter (in_tournament k ms) hs))
balance-AddsUp k j ms [] = refl
balance-AddsUp k j ms (h ∷ hs) =
    let ih = balance-AddsUp k j ms hs in
    let kept = filter (in_tournament k ms) hs in
    elim (Bool-cases (in_tournament k ms h)) [
      | inr other ↦ rw other (inr (λ c. cc (sym other ∙ IsPlayedIn-in_tournament k ms h c.1), ih))
      | inl played ↦ elim (Bool-cases (h.team_id == j)) [
        | inl mine ↦
            rw (played, mine)
              (inl (
                ((==_iff h.team_id j).0 mine, in_tournament-IsPlayedIn k ms h played),
                (balance j kept, ih, refl),
              ))
        | inr not_mine ↦
            rw (played, not_mine, zero_left (balance j kept))
              (inr (λ c. cc (sym not_mine ∙ (==_iff h.team_id j).1 c.0), ih))
      ]
    ]

-- The rows of the team in a list of rows.
abbrev pub row_of : ℕ → DeltaRow → Bool
row_of j row = row.id == j

-- Whether the history has a row that counts.
abbrev pub HasPlayed : ℕ → ℕ → List Match → List TeamEloHistory → Type 0
HasPlayed k j ms [] = ⊥
HasPlayed k j ms (h ∷ hs) = Counts k j ms h ⊎ HasPlayed k j ms hs

HasPlayed-any :
    (k j : ℕ) (ms : List Match) (hs : List TeamEloHistory)
    → HasPlayed k j ms hs
    → any (λ h. h.team_id == j) (filter (in_tournament k ms) hs) ≡ true
HasPlayed-any k j ms [] e = absurd e
HasPlayed-any k j ms (h ∷ hs) (inl (mine, played)) =
    rw (IsPlayedIn-in_tournament k ms h played, (==_iff h.team_id j).1 mine) refl
HasPlayed-any k j ms (h ∷ hs) (inr later) =
    let ih = HasPlayed-any k j ms hs later in
    elim (Bool-cases (in_tournament k ms h)) [
      | inl kept ↦ rw (kept, ih) (ground arith)
      | inr dropped ↦ rw (dropped, ih) refl
    ]

delta_rows-all :
    (j : ℕ) (hs : List TeamEloHistory) (ts : List Team) {t : Team}
    → find_team j ts ≡ some t
    → any (λ h. h.team_id == j) hs ≡ true
    → any (row_of j) (delta_rows hs ts) ≡ true
unfolding delta_rows
delta_rows-all j hs [] found played = cc
delta_rows-all j hs (u ∷ us) {t} found played = elim (Bool-cases (u.id == j)) [
  | inl same ↦ let id = (==_iff u.id j).0 same in rw (id, played) (rw (==_refl j) refl)
  | inr other ↦
      let ih = delta_rows-all j hs us {t = t} (rw other at found) played in
      elim (Bool-cases (any (λ h. h.team_id == u.id) hs)) [
        | inl active ↦ rw (active, ih) (rw other refl)
        | inr idle ↦ rw (idle, ih) refl
      ]
]

any-count : (p : DeltaRow → Bool) (rows : List DeltaRow) → any p rows ≡ ltb 0 (count_where p rows)
any-count p [] = refl
any-count p (row ∷ rows) = ground (arith, any-count p rows)

-- What is told of a team, in terms of the table's own rows.
told-counts :
    (k : ℕ) (w : World) (rows : List DeltaRow)
    → All (IsTold (filter (in_tournament k w.matches) w.team_elo_history) w.teams) rows
    → All
        (λ row.
          (t : Team) × (find_team row.id w.teams ≡ some t)
          × (row.name ≡ t.name)
          × AddsUp k row.id w.matches w.team_elo_history row.elo_delta)
        rows
told-counts k w [] told = tt
told-counts k w (row ∷ rows) told =
    let (t, found, name, delta) = told.0 in
    (
      (
        t,
        found,
        name,
        subst (AddsUp k row.id w.matches w.team_elo_history) (sym delta)
            (balance-AddsUp k row.id w.matches w.team_elo_history),
      ),
      told-counts k w rows told.1,
    )

-- The ranking of a tournament is ordered by the points won, the highest first. Each row is one of a
-- team of the table, under its name, with the sum of the changes of the team's rating in exactly
-- those rows of the history whose match the table of matches has in the tournament. Every team of the
-- table that has such a row is in the ranking.
pub tournament_ranking_told :
    (k : ℕ) (w : World)
    → HasUniqueIds w.teams
    → let rows = tournament_ranking k w in
      IsOrdered higher_delta rows
      × All
          (λ row.
            (t : Team) × (find_team row.id w.teams ≡ some t)
            × (row.name ≡ t.name)
            × AddsUp k row.id w.matches w.team_elo_history row.elo_delta)
          rows
      × ((t : Team)
          → find_team t.id w.teams ≡ some t
          → HasPlayed k t.id w.matches w.team_elo_history
          → any (row_of t.id) rows ≡ true)
unfolding tournament_ranking
tournament_ranking_told k w unique =
    let (ordered, told) = tournament_ranking-IsTold k w unique in
    let kept = filter (in_tournament k w.matches) w.team_elo_history in
    let rows = delta_rows kept w.teams in
    (
      ordered,
      told-counts k w (order_by higher_delta rows) told,
      λ t found played.
          any-count (row_of t.id) (order_by higher_delta rows)
          ∙ ap (ltb 0) (count_where-order_by higher_delta (row_of t.id) rows)
          ∙ sym (any-count (row_of t.id) rows)
          ∙ delta_rows-all t.id kept w.teams found
              (HasPlayed-any k t.id w.matches w.team_elo_history played),
    )
