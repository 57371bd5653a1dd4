-- ===== src/Views/Creation.antt =====
-- What a request that creates a tournament does: `TournamentViewSet.create` of
-- django-api/app/apps/tournaments/views.py.
use tournament_platform_sdd.Base.{
  ℕ, ◌+◌, ◌≤◌, ◌<◌, ◌≡◌, refl, true, false, ◌&&◌, ◌⊎◌, inl, inr, [], ◌∷◌, ◌++◌, arith,
}
use tournament_platform_sdd.Exec.{ok, err, integrity_error, validation_error}
use tournament_platform_sdd.Models.{World, User, Tournament, TournamentStatus}
use tournament_platform_sdd.Runtime.{Runtime}
use tournament_platform_sdd.Events.{publish_event}
use tournament_platform_sdd.Views.Tournaments.{
  TournamentData, fits_field, has_valid_dates, insert_tournament, tournament_payload, create,
}

-- What the serializer refuses: a number that the column cannot hold, or an end before the start.
accepted :
    (request : TournamentData)
    → request.max_teams ≤ 2147483647
    → request.start_date ≤ request.end_date
    → (fits_field request && has_valid_dates request) ≡ true
accepted request room dates = ground arith

rejected :
    (request : TournamentData)
    → (2147483647 < request.max_teams) ⊎ (request.end_date < request.start_date)
    → (fits_field request && has_valid_dates request) ≡ false
rejected request (inl large) = ground arith
rejected request (inr early) = ground arith

-- The row of a request: a draft of the user, with a new id.
abbrev pub draft_of : ℕ → User → TournamentData → Tournament
draft_of id u request = record {
  id = id;
  name = request.name;
  status = TournamentStatus.draft;
  format = request.format;
  max_teams = request.max_teams;
  start_date = request.start_date;
  end_date = request.end_date;
  created_by_id = u.id;
}

-- The state once the row is inserted.
abbrev pub inserted : World → User → TournamentData → World
inserted w u request = record w {
  tournaments = w.tournaments ++ draft_of w.next_id u request ∷ [];
  next_id = w.next_id + 1;
}

insert-refused :
    (u : User) (request : TournamentData) (w : World)
    → request.max_teams ≡ 0
    → insert_tournament u request w ≡ (err integrity_error, w)
unfolding insert_tournament
insert-refused u request w empty = rw empty refl

insert-done :
    (u : User) (request : TournamentData) (w : World)
    → 1 ≤ request.max_teams
    → request.max_teams ≤ 2147483647
    → request.start_date ≤ request.end_date
    → insert_tournament u request w ≡ (ok (draft_of w.next_id u request), inserted w u request)
unfolding insert_tournament
insert-done u request w some_ room dates = ground arith

module _ (rt : Runtime) where
  -- The outcomes of a request to create a tournament. An end before the start, or more teams than
  -- the column can hold, is refused as invalid, and no teams at all by the database; none of these
  -- changes anything. Any other request, also one that ends on the day of its start, inserts its
  -- row, as a draft of the user with a new id, and returns it; then the event is published.
  pub create_outcomes :
      (u : User) (request : TournamentData) (w : World)
      → ((2147483647 < request.max_teams) ⊎ (request.end_date < request.start_date)
          → create rt u request w ≡ (err validation_error, w))
        × (request.start_date ≤ request.end_date
            → (request.max_teams ≡ 0 → create rt u request w ≡ (err integrity_error, w))
              × (1 ≤ request.max_teams
                  → request.max_teams ≤ 2147483647
                  → let t = draft_of w.next_id u request in
                    create rt u request w ≡ (
                      ok t,
                      (publish_event rt "tournament.created"
                          (tournament_payload rt t)
                          (inserted w u request)).1,
                    )))
  unfolding create publish_event
  create_outcomes u request w = (
    λ bad. rw (rejected request bad) refl,
    λ dates. (
      λ empty.
          rw (accepted request (omega (arith, empty)) dates)
            (rw (insert-refused u request w empty) refl),
      λ some_ room.
          rw (accepted request room dates)
            (rw (insert-done u request w some_ room dates) (ground arith)),
    ),
  )
