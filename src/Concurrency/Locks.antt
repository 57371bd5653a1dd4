-- ===== src/Concurrency/Locks.antt =====
-- The row locks of `update_elo` in django-api/app/apps/teams/services.py: `select_for_update` on the
-- rows of both teams, which the database locks one after the other in the order of the query, by
-- `pk`, and holds until the transaction ends.
pub mod Deadlock
use tournament_platform_sdd.Base.{
  ℕ, zero, suc, ◌+◌, ◌≤◌, ◌<◌, ltb, ◌==◌, ◌≡◌, ◌≢◌, refl, ◌∙◌, ap, Bool, true, false, Bool-cases,
  inl, inr, if◌then◌else◌, ◌⊎◌, subst, map, List, [], ◌∷◌, ◌++◌, All, any, total, arith,
}

-- A transaction: the rows that it has locked, and those that it has yet to lock.
pub record Locking : Type 0 where
  pub held : List ℕ
  pub wanted : List ℕ

-- `sorted([match.winner_team_id, _loser_id(match)])`, and `filter(pk__in=team_ids).order_by("pk")`,
-- which names a row once.
unfoldable pub team_ids : ℕ → ℕ → List ℕ
team_ids winner loser =
    if ltb winner loser
    then winner ∷ loser ∷ []
    else if ltb loser winner
    then loser ∷ winner ∷ []
    else winner ∷ []

abbrev pub holds : ℕ → Locking → Bool
holds row t = any (λ k. k == row) t.held

-- The next step of a transaction before `rest`, among `all`: it commits and is gone, or it locks its
-- next row, or it waits for the transaction that holds the row.
abbrev pub turn_of : List Locking → List ℕ → List ℕ → List Locking → List Locking
turn_of all held [] rest = rest
turn_of all held (row ∷ rows) rest =
    if any (holds row) all
    then record { held = held; wanted = row ∷ rows } ∷ rest
    else record { held = row ∷ held; wanted = rows } ∷ rest

unfoldable pub turn_in : List Locking → ℕ → List Locking → List Locking
turn_in all i [] = []
turn_in all zero (t ∷ ts) = turn_of all t.held t.wanted ts
turn_in all (suc i) (t ∷ ts) = t ∷ turn_in all i ts

-- A transaction begins, or that at a place takes its turn.
pub data LockEvent : Type 0 where
  began : ℕ → ℕ → LockEvent
  turned : ℕ → LockEvent

unfoldable pub run_locks : List LockEvent → List Locking → List Locking
run_locks [] ts = ts
run_locks (began winner loser ∷ es) ts =
    run_locks es (ts ++ record { held = []; wanted = team_ids winner loser } ∷ [])
run_locks (turned i ∷ es) ts = run_locks es (turn_in ts i ts)
