-- ===== src/Concurrency/Locks/Deadlock.antt =====
-- Calls of `update_elo` never wait for each other's row locks in a circle: each locks its rows in
-- ascending order.
use tournament_platform_sdd.Base.{
  ℕ, zero, suc, ◌+◌, ◌≤◌, ◌<◌, ◌==◌, ◌≡◌, ◌≢◌, refl, ◌∙◌, ap, true, false, Bool-cases, inl, inr,
  ◌⊎◌, subst, map, List, [], ◌∷◌, ◌++◌, All, any, total, arith,
}
use tournament_platform_sdd.Concurrency.Locks.{
  Locking, team_ids, holds, turn_of, turn_in, LockEvent, began, turned, run_locks,
}

-- Each row that is still to be locked comes after those that are held then.
abbrev Ascends : List ℕ → List ℕ → Type 0
Ascends held [] = Unit {0}
Ascends held (row ∷ rows) = All (λ h. h < row) held × Ascends (row ∷ held) rows

abbrev AllAscend : List Locking → Type 0
AllAscend = All (λ t. Ascends t.held t.wanted)

team_ids-Ascends : (winner loser : ℕ) → Ascends [] (team_ids winner loser)
unfolding team_ids
team_ids-Ascends winner loser = ground arith

turn_of-AllAscend :
    (all : List Locking) (held wanted : List ℕ) (rest : List Locking)
    → Ascends held wanted
    → AllAscend rest
    → AllAscend (turn_of all held wanted rest)
turn_of-AllAscend all held [] rest h others = others
turn_of-AllAscend all held (row ∷ rows) rest h others = elim (Bool-cases (any (holds row) all)) [
  | inl taken ↦ rw taken (h, others)
  | inr free ↦ rw free (h.1, others)
]

turn_in-AllAscend :
    (all : List Locking) (i : ℕ) (ts : List Locking) → AllAscend ts → AllAscend (turn_in all i ts)
unfolding turn_in
turn_in-AllAscend all i [] h = tt
turn_in-AllAscend all zero (t ∷ ts) h = turn_of-AllAscend all t.held t.wanted ts h.0 h.1
turn_in-AllAscend all (suc i) (t ∷ ts) h = (h.0, turn_in-AllAscend all i ts h.1)

AllAscend-last :
    (ts : List Locking) (t : Locking)
    → AllAscend ts
    → Ascends t.held t.wanted
    → AllAscend (ts ++ t ∷ [])
AllAscend-last [] t h last = (last, tt)
AllAscend-last (x ∷ xs) t h last = (h.0, AllAscend-last xs t h.1 last)

run_locks-AllAscend :
    (es : List LockEvent) (ts : List Locking) → AllAscend ts → AllAscend (run_locks es ts)
unfolding run_locks
run_locks-AllAscend [] ts h = h
run_locks-AllAscend (began winner loser ∷ es) ts h =
    run_locks-AllAscend es _ (AllAscend-last ts _ h (team_ids-Ascends winner loser))
run_locks-AllAscend (turned i ∷ es) ts h =
    run_locks-AllAscend es (turn_in ts i ts) (turn_in-AllAscend ts i ts h)

-- The transaction at a place.
abbrev At : ℕ → Locking → List Locking → Type 0
At i t [] = ⊥
At zero t (x ∷ xs) = x ≡ t
At (suc i) t (x ∷ xs) = At i t xs

At-AllAscend :
    (i : ℕ) (t : Locking) (ts : List Locking) → At i t ts → AllAscend ts → Ascends t.held t.wanted
At-AllAscend i t [] here h = elim here [ ]
At-AllAscend zero t (x ∷ xs) here h = subst (λ y. Ascends y.held y.wanted) here h.0
At-AllAscend (suc i) t (x ∷ xs) here h = At-AllAscend i t xs here h.1

holder :
    (row : ℕ) (ts : List Locking)
    → any (holds row) ts ≡ true
    → (i : ℕ) × (t : Locking) × At i t ts × (holds row t ≡ true)
holder row [] h = cc
holder row (x ∷ xs) h = elim (Bool-cases (holds row x)) [
  | inl here ↦ (0, x, refl, here)
  | inr other ↦ let (i, t, there, held) = holder row xs (ground arith) in (suc i, t, there, held)
]

below_row :
    (row next : ℕ) (held : List ℕ)
    → All (λ h. h < next) held
    → any (λ k. k == row) held ≡ true
    → row < next
below_row row next [] h found = cc
below_row row next (k ∷ ks) h found = ground (arith, below_row row next ks)

-- What is left to do: the rows to lock, and the commits.
abbrev pub remaining : List Locking → ℕ
remaining = total (λ t. 1 + total (λ r. 1) t.wanted)

-- A row that is wanted is below this.
abbrev all_rows : List Locking → ℕ
all_rows = total (λ t. total (λ r. suc r) t.wanted)

At-wanted :
    (i : ℕ) (t : Locking) (ts : List Locking) (row : ℕ) (rows : List ℕ)
    → At i t ts
    → t.wanted ≡ row ∷ rows
    → row < all_rows ts
At-wanted i t [] row rows here w = elim here [ ]
At-wanted zero t (x ∷ xs) row rows here w =
    let e = ap (λ y. y.wanted) here ∙ w in rw e (omega arith)
At-wanted (suc i) t (x ∷ xs) row rows here w = omega (arith, At-wanted i t xs row rows here w)

turn_in-commits :
    (all : List Locking) (i : ℕ) (t : Locking) (ts : List Locking)
    → At i t ts
    → t.wanted ≡ []
    → remaining (turn_in all i ts) < remaining ts
unfolding turn_in
turn_in-commits all i t [] here w = elim here [ ]
turn_in-commits all zero t (x ∷ xs) here w =
    let e = ap (λ y. y.wanted) here ∙ w in rw e (omega arith)
turn_in-commits all (suc i) t (x ∷ xs) here w = omega (arith, turn_in-commits all i t xs here w)

turn_in-locks :
    (all : List Locking) (i : ℕ) (t : Locking) (ts : List Locking) (row : ℕ) (rows : List ℕ)
    → At i t ts
    → t.wanted ≡ row ∷ rows
    → any (holds row) all ≡ false
    → remaining (turn_in all i ts) < remaining ts
unfolding turn_in
turn_in-locks all i t [] row rows here w free = elim here [ ]
turn_in-locks all zero t (x ∷ xs) row rows here w free =
    let e = ap (λ y. y.wanted) here ∙ w in rw e (rw free (omega arith))
turn_in-locks all (suc i) t (x ∷ xs) row rows here w free =
    omega (arith, turn_in-locks all i t xs row rows here w free)

List-cases {ℓ} : {A : Type ℓ} (xs : List A) → (xs ≡ []) ⊎ ((y : A) × (ys : List A) × (xs ≡ y ∷ ys))
List-cases [] = inl refl
List-cases (x ∷ xs) = inr (x, xs, refl)

-- From a transaction that waits to the one that it waits for, and so on: their rows ascend.
some_turn :
    (n : ℕ) (ts : List Locking) (i : ℕ) (t : Locking) (row : ℕ) (rows : List ℕ)
    → AllAscend ts
    → At i t ts
    → t.wanted ≡ row ∷ rows
    → all_rows ts ≤ row + n
    → (j : ℕ) × (remaining (turn_in ts j ts) < remaining ts)
some_turn zero ts i t row rows ascend here w le =
    absurd (omega (arith, At-wanted i t ts row rows here w))
some_turn (suc n) ts i t row rows ascend here w le = elim (Bool-cases (any (holds row) ts)) [
  | inr free ↦ (i, turn_in-locks ts i t ts row rows here w free)
  | inl taken ↦
      let (j, u, there, held) = holder row ts taken in
      elim (List-cases u.wanted) [
        | inl done ↦ (j, turn_in-commits ts j u ts there done)
        | inr (next, more, w') ↦
            let ascends = subst (Ascends u.held) w' (At-AllAscend j u ts there ascend) in
            some_turn n ts j u next more ascend there w'
              (omega (arith, below_row row next u.held ascends.0 held))
      ]
]

any_turn :
    (ts : List Locking)
    → AllAscend ts
    → ts ≢ []
    → (j : ℕ) × (remaining (turn_in ts j ts) < remaining ts)
any_turn [] ascend ne = absurd (ne refl)
any_turn (t ∷ ts) ascend ne = elim (List-cases t.wanted) [
  | inl done ↦ (0, turn_in-commits (t ∷ ts) 0 t (t ∷ ts) refl done)
  | inr (row, rows, w) ↦
      some_turn (all_rows (t ∷ ts)) (t ∷ ts) 0 t row rows ascend refl w (omega arith)
]

drained :
    (n : ℕ) (ts : List Locking)
    → AllAscend ts
    → remaining ts ≤ n
    → (is : List ℕ) × (run_locks (map turned is) ts ≡ [])
unfolding run_locks
drained n [] ascend le = ([], refl)
drained zero (t ∷ ts) ascend le = absurd (omega arith)
drained (suc n) (t ∷ ts) ascend le =
    let (j, less) = any_turn (t ∷ ts) ascend (λ e. cc) in
    let (is, e) =
      drained n (turn_in (t ∷ ts) j (t ∷ ts)) (turn_in-AllAscend (t ∷ ts) j (t ∷ ts) ascend)
        (omega arith) in
    (j ∷ is, e)

-- However calls of `update_elo` come in and lock their rows, in whatever order: as long as one of
-- them is under way, one can take a turn that brings it nearer to its end, so that they never wait
-- for each other in a circle; and some order of turns lets all of them commit.
pub run_locks-no_deadlock :
    (es : List LockEvent)
    → let ts = run_locks es [] in
      (ts ≢ [] → (j : ℕ) × (remaining (turn_in ts j ts) < remaining ts))
      × ((is : List ℕ) × (run_locks (map turned is) ts ≡ []))
run_locks-no_deadlock es =
    let ts = run_locks es [] in
    let ascend = run_locks-AllAscend es [] tt in
    (any_turn ts ascend, drained (remaining ts) ts ascend (omega arith))
