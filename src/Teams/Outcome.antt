-- ===== src/Teams/Outcome.antt =====
-- What `update_elo` of django-api/app/apps/teams/services.py does to a match that is not rated yet.
use mathlib.Core.Option
use tournament_platform_sdd.Base.{
  ℕ, ◌+◌, ◌≤◌, Option-cases, ℤ, pos, pos_part, neg_part, ◌≤ℤ◌, ◌+ℤ◌, ◌≡◌, ◌≢◌, refl, sym, subst,
  ◌∙◌, true, false, ◌==◌, ==_iff, inl, inr, arith, any-implies, if◌then◌else◌, ◌||◌, ◌&&◌,
  any-append, some, List, [], ◌∷◌, ◌++◌, find?-filter, find?-update_where, find?-holds,
  update_where,
}
use tournament_platform_sdd.Exec.{ok}
use tournament_platform_sdd.Models.{World, Match, Team, TeamEloHistory}
use tournament_platform_sdd.Models.Tables.{
  find_team, fits_int4, has_team_history, save_team_elo, create_team_history,
}
use tournament_platform_sdd.Floats.{PyFloat}
use tournament_platform_sdd.Rating.{k_factor, calculate_elo}
use tournament_platform_sdd.Rating.Bounds.{IsWithin, calculate_elo_bounds}
use tournament_platform_sdd.Teams.Service.{
  is_rated, loser_id, fetch_teams, write_ratings, rate_pair, rate_teams, update_elo,
}
use tournament_platform_sdd.Teams.Idempotent.{update_elo-new}

-- A row of the history of this match.
abbrev pub history_row : World → ℕ → Team → ℤ → TeamEloHistory
history_row w match_id team elo = record {
  team_id = team.id;
  match_id = match_id;
  elo_before = team.elo;
  elo_after = elo;
  created_at = w.now;
}

-- The teams with the rating of one of them replaced.
abbrev pub with_elo : ℕ → ℤ → List Team → List Team
with_elo k elo = update_where (λ t. t.id == k) (λ t. record t { elo = elo })

-- The state after both ratings and both rows of history are written.
abbrev pub rated_world : World → ℕ → Team → Team → ℤ → ℤ → World
rated_world w match_id winner loser new_winner_elo new_loser_elo = record w {
  teams = with_elo loser.id new_loser_elo (with_elo winner.id new_winner_elo w.teams);
  team_elo_history =
      (w.team_elo_history ++ history_row w match_id winner new_winner_elo ∷ [])
      ++ history_row w match_id loser new_loser_elo ∷ [];
}

-- A match that is not rated has no row for any team.
no_team_history :
    (team match_id : ℕ) (w : World)
    → is_rated match_id w ≡ false
    → has_team_history team match_id w.team_elo_history ≡ false
no_team_history team match_id w new =
    any-implies (λ h. h.team_id == team && h.match_id == match_id) (λ h. h.match_id == match_id)
      w.team_elo_history (λ h seen. ground arith) new

-- The row of one team does not stand in for the other's.
no_second_history :
    (match_id : ℕ) (winner loser : Team) (elo : ℤ) (w : World)
    → is_rated match_id w ≡ false
    → winner.id ≢ loser.id
    → has_team_history loser.id match_id
        (w.team_elo_history ++ history_row w match_id winner elo ∷ [])
      ≡ false
no_second_history match_id winner loser elo w new ne =
    rw any-append (ground (arith, no_team_history loser.id match_id w new))

write_ratings_lem :
    (match_id : ℕ) (winner loser : Team) (new_winner_elo new_loser_elo : ℤ) (w : World)
    → is_rated match_id w ≡ false
    → winner.id ≢ loser.id
    → fits_int4 new_winner_elo ≡ true
    → fits_int4 new_loser_elo ≡ true
    → write_ratings match_id winner loser (new_winner_elo, new_loser_elo) w
      ≡ (ok tt, rated_world w match_id winner loser new_winner_elo new_loser_elo)
unfolding write_ratings save_team_elo create_team_history
write_ratings_lem match_id winner loser new_winner_elo new_loser_elo w new ne fw fl =
    let first = no_team_history winner.id match_id w new in
    let second = no_second_history match_id winner loser new_winner_elo w new ne in
    rw (fw, fl, first, second)

-- The lookups of `update_elo` in the rows that it fetched are lookups in the table.
pub fetch_winner :
    (winner loser : ℕ) (w : World)
    → find_team winner (fetch_teams winner loser w) ≡ find_team winner w.teams
fetch_winner winner loser w =
    find?-filter (λ t. t.id == winner) (λ t. t.id == winner || t.id == loser) w.teams
      (λ t h. ground arith)

pub fetch_loser :
    (winner loser : ℕ) (w : World)
    → find_team loser (fetch_teams winner loser w) ≡ find_team loser w.teams
fetch_loser winner loser w =
    find?-filter (λ t. t.id == loser) (λ t. t.id == winner || t.id == loser) w.teams
      (λ t h. ground arith)

pub find_team-id : (k : ℕ) (teams : List Team) {t : Team} → find_team k teams ≡ some t → t.id ≡ k
find_team-id k teams h = (==_iff _ k).0 (find?-holds (λ t. t.id == k) teams h)

-- A row is found by its own id.
pub find_team-own :
    (k : ℕ) (teams : List Team) {t : Team}
    → find_team k teams ≡ some t
    → find_team t.id teams ≡ some t
find_team-own k teams {t} h =
    subst (λ j. find_team j teams ≡ some t) (sym (find_team-id k teams h)) h

-- A lookup after one rating was replaced.
pub find_team-with_elo :
    (k j : ℕ) (elo : ℤ) (teams : List Team)
    → find_team k (with_elo j elo teams)
      ≡ Option.map (λ t. if t.id == j then record t { elo = elo } else t) (find_team k teams)
find_team-with_elo k j elo teams =
    find?-update_where (λ t. t.id == k) (λ t. t.id == j) (λ t. record t { elo = elo }) teams
      (λ t _. refl)

module _ (fl : PyFloat) where
  rate_pair_lem :
      (match_id winner_id loser_id : ℕ) (winner loser : Team) (ratings : ℤ × ℤ) (w : World)
      → find_team winner_id w.teams ≡ some winner
      → find_team loser_id w.teams ≡ some loser
      → calculate_elo fl winner.elo loser.elo k_factor ≡ ok ratings
      → rate_pair fl match_id winner_id loser_id w ≡ write_ratings match_id winner loser ratings w
  unfolding rate_pair
  rate_pair_lem match_id winner_id loser_id winner loser ratings w fw fo rated =
      rw (fetch_winner winner_id loser_id w, fw, fetch_loser winner_id loser_id w, fo, rated)

  pub rate_teams_lem :
      (m : Match) (winner_id : ℕ) (w : World)
      → m.winner_team_id ≡ some winner_id
      → rate_teams fl m w ≡ rate_pair fl m.id winner_id (loser_id m) w
  unfolding rate_teams
  rate_teams_lem m winner_id w won = simp won

-- A rating so far from the ends of its column that 32 points more or less still fit.
abbrev pub HasRoom : ℤ → Type 0
HasRoom r = pos_part r + neg_part r ≤ 2147483615

fits_above : (r r' : ℤ) → HasRoom r → r ≤ℤ r' → r' ≤ℤ r +ℤ pos 32 → fits_int4 r' ≡ true
unfolding ◌+ℤ◌
fits_above r r' room low high = ground arith

fits_below : (r r' : ℤ) → HasRoom r → r ≤ℤ r' +ℤ pos 32 → r' ≤ℤ r → fits_int4 r' ≡ true
unfolding ◌+ℤ◌
fits_below r r' room low high = ground arith

-- The two teams of an update: `m` was won by `winner`, and lost by `loser`.
pub record IsPlayed (w : World) (m : Match) (winner loser : Team) : Type 0 where
  pub winner_team : ℕ
  pub won : m.winner_team_id ≡ some winner_team
  pub winner_row : find_team winner_team w.teams ≡ some winner
  pub loser_row : find_team (loser_id m) w.teams ≡ some loser
  pub apart : winner_team ≢ loser_id m

rows_apart :
    {w : World} {m : Match} {winner loser : Team} → IsPlayed w m winner loser → winner.id ≢ loser.id
rows_apart {w} {m} p e = p.apart (
    sym (find_team-id p.winner_team w.teams p.winner_row)
    ∙ e
    ∙ find_team-id (loser_id m) w.teams p.loser_row)

module _ (fl : PyFloat) where
  update_elo-world :
      (m : Match) {winner loser : Team} (w : World) (w' l' : ℤ)
      → IsPlayed w m winner loser
      → is_rated m.id w ≡ false
      → calculate_elo fl winner.elo loser.elo k_factor ≡ ok (w', l')
      → fits_int4 w' ≡ true
      → fits_int4 l' ≡ true
      → update_elo fl m w ≡ (ok tt, rated_world w m.id winner loser w' l')
  update_elo-world m {winner} {loser} w w' l' p new rated fw fo = rw (update_elo-new fl m w new) (
      rw (
        rate_teams_lem fl m p.winner_team w p.won,
        rate_pair_lem fl m.id p.winner_team (loser_id m) winner loser (w', l') w p.winner_row
            p.loser_row rated,
        write_ratings_lem m.id winner loser w' l' w new (rows_apart p) fw fo,
      ))

  -- For a match that is not rated yet, between two different teams whose ratings fit their column
  -- with room to spare, the winner at most 123200 points below the loser, `update_elo` returns. The
  -- state changes in exactly this: both teams get the ratings of `calculate_elo`, which give the
  -- winner 0 to 32 points and take 0 to 32 from the loser, and one row of history is added for each
  -- team, with its rating before and after.
  pub update_elo_outcome :
      (m : Match) (winner loser : Team) (w : World)
      → IsPlayed w m winner loser
      → is_rated m.id w ≡ false
      → HasRoom winner.elo
      → HasRoom loser.elo
      → IsWithin winner.elo loser.elo
      → (w' l' : ℤ) × (update_elo fl m w ≡ (ok tt, rated_world w m.id winner loser w' l'))
        × (calculate_elo fl winner.elo loser.elo k_factor ≡ ok (w', l'))
        × (winner.elo ≤ℤ w')
        × (w' ≤ℤ winner.elo +ℤ pos 32)
        × (loser.elo ≤ℤ l' +ℤ pos 32)
        × (l' ≤ℤ loser.elo)
  update_elo_outcome m winner loser w p new rw_ rl within =
      let (w', l', rated, w0, w1, l0, l1) =
        calculate_elo_bounds fl winner.elo loser.elo (omega arith) (omega arith) within in
      (
        w',
        l',
        update_elo-world m w w' l' p new rated (fits_above winner.elo w' rw_ w0 w1)
            (fits_below loser.elo l' rl l0 l1),
        rated,
        w0,
        w1,
        l0,
        l1,
      )

-- The lookup of a third team passes by a replaced rating.
with_elo_ne :
    (k j : ℕ) (elo : ℤ) (teams : List Team)
    → k ≢ j
    → find_team k (with_elo j elo teams) ≡ find_team k teams
with_elo_ne k j elo teams ne = rw find_team-with_elo (elim (Option-cases (find_team k teams)) [
  | inl gone ↦ rw gone
  | inr (t, found) ↦ rw found (ground (arith, find_team-id k teams found))
])

with_elo_self :
    (k : ℕ) (elo : ℤ) (teams : List Team) (t : Team)
    → find_team k teams ≡ some t
    → find_team k (with_elo k elo teams) ≡ some (record t { elo = elo })
with_elo_self k elo teams t found =
    rw (find_team-with_elo, found) (ground (arith, find_team-id k teams found))

-- What a lookup finds once both ratings are written: the winner and the loser with their new
-- ratings and all else as it was, and every other team unchanged.
pub find_team-rated_world :
    (m : Match) (winner loser : Team) (w : World) (w' l' : ℤ)
    → IsPlayed w m winner loser
    → let teams' = (rated_world w m.id winner loser w' l').teams in
      (find_team winner.id teams' ≡ some (record winner { elo = w' }))
      × (find_team loser.id teams' ≡ some (record loser { elo = l' }))
      × ((k : ℕ) → k ≢ winner.id → k ≢ loser.id → find_team k teams' ≡ find_team k w.teams)
find_team-rated_world m winner loser w w' l' p =
    let row = find_team-own p.winner_team w.teams p.winner_row in
    let row' = find_team-own (loser_id m) w.teams p.loser_row in
    let ne = rows_apart p in
    (
      with_elo_ne winner.id loser.id l' _ ne ∙ with_elo_self winner.id w' w.teams winner row,
      with_elo_self loser.id l' (with_elo winner.id w' w.teams) loser
          (with_elo_ne loser.id winner.id w' w.teams (λ e. ne (sym e)) ∙ row'),
      λ k nw nl.
          with_elo_ne k loser.id l' (with_elo winner.id w' w.teams) nl
          ∙ with_elo_ne k winner.id w' w.teams nw,
    )
