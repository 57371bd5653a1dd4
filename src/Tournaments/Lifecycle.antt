-- ===== src/Tournaments/Lifecycle.antt =====
-- `TournamentService.start` of django-api/app/apps/tournaments/services.py moves a tournament from
-- `open` to `ongoing`, once.
use tournament_platform_sdd.Base.{
  ℕ, ◌≡◌, ◌≢◌, refl, true, false, if◌then◌else◌, ◌==◌, ==_iff, none, some, arith,
  find?-update_where, find?-holds, Option-cases, inl, inr,
}
use mathlib.Core.Option
use tournament_platform_sdd.Exec.{ok, err, tournament_not_found, invalid_tournament_state}
use tournament_platform_sdd.Models.{World, Tournament, TournamentStatus, is_open}
use tournament_platform_sdd.Models.Tables.{find_tournament}
use tournament_platform_sdd.Tournaments.TournamentService.{save_tournament_status, start}

-- The tournament, started.
abbrev pub started : Tournament → Tournament
started t = record t { status = TournamentStatus.ongoing }

find_tournament-save :
    (k : ℕ) (t : Tournament) (w : World)
    → find_tournament k (save_tournament_status t w).tournaments
      ≡ Option.map
          (λ x. if x.id == t.id then record x { status = t.status } else x)
          (find_tournament k w.tournaments)
unfolding save_tournament_status
find_tournament-save k t w =
    find?-update_where (λ x. x.id == k) (λ x. x.id == t.id) (λ x. record x { status = t.status })
      w.tournaments (λ x _. refl)

find_tournament_ne :
    (k : ℕ) (t : Tournament) (w : World)
    → t.id ≡ k
    → (j : ℕ) → j ≢ k
    → find_tournament j (save_tournament_status t w).tournaments ≡ find_tournament j w.tournaments
find_tournament_ne k t w id j ne =
    rw find_tournament-save (elim (Option-cases (find_tournament j w.tournaments)) [
      | inl gone ↦ rw gone
      | inr (x, found) ↦
          rw found
            (ground (arith, id, find?-holds (λ (y : Tournament). y.id == j) w.tournaments found))
    ])

start-open :
    (k : ℕ) (w : World) (t : Tournament)
    → find_tournament k w.tournaments ≡ some t
    → is_open t.status ≡ true
    → start k w ≡ (ok (started t), save_tournament_status (started t) w)
unfolding start
start-open k w t found is_open_ = rw found (rw is_open_)

start-closed :
    (k : ℕ) (w : World) (t : Tournament)
    → find_tournament k w.tournaments ≡ some t
    → is_open t.status ≡ false
    → start k w ≡ (err invalid_tournament_state, w)
unfolding start
start-closed k w t found closed = rw found (rw closed)

start-unknown :
    (k : ℕ) (w : World)
    → find_tournament k w.tournaments ≡ none
    → start k w ≡ (err tournament_not_found, w)
unfolding start
start-unknown k w gone = rw gone

-- Every outcome of `start`. An unknown id and a tournament that is not open are refused with their
-- exceptions and change nothing. An open tournament is returned as ongoing, is stored so with all
-- else of its row as it was, every other tournament is found as before, and to start it once more
-- is refused.
pub start_outcomes :
    (k : ℕ) (w : World)
    → (find_tournament k w.tournaments ≡ none → start k w ≡ (err tournament_not_found, w))
      × ((t : Tournament)
          → find_tournament k w.tournaments ≡ some t
          → (is_open t.status ≡ false → start k w ≡ (err invalid_tournament_state, w))
            × (is_open t.status ≡ true
                → let w' = (start k w).1 in
                  ((start k w).0 ≡ ok (started t))
                  × (find_tournament k w'.tournaments ≡ some (started t))
                  × ((j : ℕ)
                      → j ≢ k
                      → find_tournament j w'.tournaments ≡ find_tournament j w.tournaments)
                  × (start k w' ≡ (err invalid_tournament_state, w'))))
start_outcomes k w = (
  start-unknown k w,
  λ t found. (
    start-closed k w t found,
    λ is_open_.
        let w' = save_tournament_status (started t) w in
        let id : t.id ≡ k = (==_iff _ k).0 (find?-holds (λ x. x.id == k) w.tournaments found) in
        let stored : find_tournament k w'.tournaments ≡ some (started t) =
          rw (find_tournament-save, found) (ground (arith, id)) in
        rw (start-open k w t found is_open_) (
          refl,
          stored,
          find_tournament_ne k (started t) w id,
          start-closed k w' (started t) stored refl,
        ),
  ),
)
