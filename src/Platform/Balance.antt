-- ===== src/Platform/Balance.antt =====
-- The books of the teams' ratings, `team_elo_history`: what they say of a team, and that two ratings
-- written with their rows of history keep them.
use mathlib.Core.Option
use tournament_platform_sdd.Base.{
  ℕ, ℤ, pos, pos_part, neg_part, ltb, ◌≤◌, ◌<◌, ◌+ℤ◌, ◌-ℤ◌, int_laws, +ℤ_parts, -ℤ_parts,
  eq_of_parts, ◌≡◌, ◌≢◌, refl, sym, ◌∙◌, ap, ◌==◌, ==_iff, if◌then◌else◌, Bool-cases, Option-cases,
  inl, inr, true, false, none, some, List, [], ◌∷◌, ◌++◌, arith,
}
use tournament_platform_sdd.Models.{World, Team, TeamEloHistory}
use tournament_platform_sdd.Models.Tables.{find_team}
use tournament_platform_sdd.Teams.Outcome.{
  history_row, rated_world, with_elo, find_team-with_elo, find_team-id,
}

pub some-injective : {A : Type 0} {a b : A} → some a ≡ some b → a ≡ b
some-injective h = cc

-- What a row of the history says of the team `k`.
abbrev pub entry : ℕ → TeamEloHistory → ℤ
entry k h = if h.team_id == k then h.elo_after -ℤ h.elo_before else pos 0

-- What the history says of the team `k` altogether.
abbrev pub balance : ℕ → List TeamEloHistory → ℤ
balance k [] = pos 0
balance k (h ∷ hs) = entry k h +ℤ balance k hs

balance-last :
    (k : ℕ) (h : TeamEloHistory) (hs : List TeamEloHistory)
    → balance k (hs ++ h ∷ []) ≡ balance k hs +ℤ entry k h
balance-last k h [] = omega int_laws
balance-last k h (g ∷ gs) =
    let ih = balance-last k h gs in
    eq_of_parts _ _ (omega (arith, +ℤ_parts, ap pos_part ih, ap neg_part ih))

-- The sums of three histories: of the loser, of the winner, and of any other team.
sum_loser : (x b s : ℤ) → x ≡ pos 1000 +ℤ s → b ≡ pos 1000 +ℤ ((s +ℤ pos 0) +ℤ (b -ℤ x))
sum_loser x b s h =
    eq_of_parts _ _ (omega (arith, +ℤ_parts, -ℤ_parts, ap pos_part h, ap neg_part h))

sum_winner : (x a s : ℤ) → x ≡ pos 1000 +ℤ s → a ≡ pos 1000 +ℤ ((s +ℤ (a -ℤ x)) +ℤ pos 0)
sum_winner x a s h =
    eq_of_parts _ _ (omega (arith, +ℤ_parts, -ℤ_parts, ap pos_part h, ap neg_part h))

sum_other : (x s : ℤ) → x ≡ pos 1000 +ℤ s → x ≡ pos 1000 +ℤ ((s +ℤ pos 0) +ℤ pos 0)
sum_other x s h = eq_of_parts _ _ (omega (arith, +ℤ_parts, ap pos_part h, ap neg_part h))

-- The abstract view of the rating of a team.
abbrev pub ledger_elo : ℕ → List TeamEloHistory → ℤ
ledger_elo k hs = pos 1000 +ℤ balance k hs

pub record IsLedger (w : World) : Type 0 where
  -- the row of a team holds what the history says
  pub rated :
      (k : ℕ) {t : Team} → find_team k w.teams ≡ some t → t.elo ≡ ledger_elo k w.team_elo_history
  -- an id that is not given out yet is no team's, in either table
  pub unissued : (k : ℕ) → w.next_id ≤ k → find_team k w.teams ≡ none
  pub unrated : (k : ℕ) → w.next_id ≤ k → balance k w.team_elo_history ≡ pos 0

-- The tables that a ledger is about.
pub IsLedger-respects :
    (s w : World)
    → w.teams ≡ s.teams
    → w.team_elo_history ≡ s.team_elo_history
    → s.next_id ≤ w.next_id
    → IsLedger s
    → IsLedger w
IsLedger-respects s w teams history ids h = record {
  rated = λ k {t} found.
      h.rated k {t = t} (ap (find_team k) (sym teams) ∙ found) ∙ ap (ledger_elo k) (sym history);
  unissued = λ k le. ap (find_team k) teams ∙ h.unissued k (omega arith);
  unrated = λ k le. ap (balance k) history ∙ h.unrated k (omega arith);
}

balance-rated_world :
    (k : ℕ) (w : World) (match_id : ℕ) (winner loser : Team) (a b : ℤ)
    → balance k (rated_world w match_id winner loser a b).team_elo_history
      ≡ (balance k w.team_elo_history +ℤ entry k (history_row w match_id winner a))
        +ℤ entry k (history_row w match_id loser b)
balance-rated_world k w match_id winner loser a b =
    balance-last k _ (w.team_elo_history ++ history_row w match_id winner a ∷ [])
    ∙ rw (balance-last k (history_row w match_id winner a) w.team_elo_history)

-- Two writes of ratings, each with its row of history, keep the books.
module _ (w : World) (match_id : ℕ) (winner loser : Team) (a b : ℤ) (h : IsLedger w)
    (winner_row : find_team winner.id w.teams ≡ some winner)
    (loser_row : find_team loser.id w.teams ≡ some loser) (apart : winner.id ≢ loser.id) where
  unfoldable pub after : World
  after = rated_world w match_id winner loser a b

  -- The row that is found for the team `k`, from the one that was found before.
  changed : Team → Team
  changed t =
      let t' = if t.id == winner.id then record t { elo = a } else t in
      if t.id == loser.id then record t' { elo = b } else t'

  find_team-after : (k : ℕ) → find_team k after.teams ≡ Option.map changed (find_team k w.teams)
  unfolding after changed
  find_team-after k =
      rw
        (
          find_team-with_elo k loser.id b (with_elo winner.id a w.teams),
          find_team-with_elo k winner.id a w.teams,
        )
        (elim (Option-cases (find_team k w.teams)) [
          | inl gone ↦ rw gone
          | inr (t, found) ↦ rw found (ground arith)
        ])

  changed_elo :
      (k : ℕ) (t : Team)
      → t.id ≡ k
      → (changed t).elo ≡ (if loser.id == k then b else if winner.id == k then a else t.elo)
  unfolding changed
  changed_elo k t id = ground arith

  -- The row of the team `k` is that of `u`, where `u` has this id.
  same_row :
      (k : ℕ) {t u : Team}
      → find_team k w.teams ≡ some t
      → find_team u.id w.teams ≡ some u
      → (u.id == k) ≡ true
      → u.elo ≡ ledger_elo k w.team_elo_history
  same_row k {t} {u} found row same =
      let same_id = ap (λ j. find_team j w.teams) ((==_iff u.id k).0 same) in
      h.rated k {t = u} (sym same_id ∙ row)

  changed_rated :
      (k : ℕ) (t : Team)
      → find_team k w.teams ≡ some t
      → (changed t).elo ≡ ledger_elo k after.team_elo_history
  unfolding after
  changed_rated k t found =
      let s = balance k w.team_elo_history in
      rw
        (
          balance-rated_world k w match_id winner loser a b,
          changed_elo k t (find_team-id k w.teams found),
        )
        (elim (Bool-cases (loser.id == k)) [
          | inl lost ↦
              let not_won : (winner.id == k) ≡ false = ground arith in
              rw (lost, not_won) (sum_loser loser.elo b s (same_row k found loser_row lost))
          | inr not_lost ↦ elim (Bool-cases (winner.id == k)) [
            | inl won ↦
                rw (not_lost, won) (sum_winner winner.elo a s (same_row k found winner_row won))
            | inr not_won ↦ rw (not_lost, not_won) (sum_other t.elo s (h.rated k found))
          ]
        ])

  rated_after :
      (k : ℕ) {t : Team}
      → find_team k after.teams ≡ some t
      → t.elo ≡ ledger_elo k after.team_elo_history
  rated_after k {t} found = elim (Option-cases (find_team k w.teams)) [
    | inl gone ↦ cc (find_team-after k, ap (Option.map changed) gone)
    | inr (u, known) ↦
        let same : changed u ≡ t =
          some-injective (sym (find_team-after k ∙ ap (Option.map changed) known) ∙ found) in
        ap (λ x. x.elo) (sym same) ∙ changed_rated k u known
  ]

  issued : (k : ℕ) {t : Team} → find_team k w.teams ≡ some t → k < w.next_id
  issued k {t} known = elim (Bool-cases (ltb k w.next_id)) [
    | inl below ↦ ground arith
    | inr above ↦ cc (known, h.unissued k (ground arith))
  ]

  pub IsLedger-after : IsLedger after
  unfolding after ◌+ℤ◌
  IsLedger-after = record {
    rated = rated_after;
    unissued = λ k le. find_team-after k ∙ ap (Option.map changed) (h.unissued k le);
    unrated = λ k le.
        let below = issued winner.id winner_row in
        let below' = issued loser.id loser_row in
        let not_won : (winner.id == k) ≡ false = ground arith in
        let not_lost : (loser.id == k) ≡ false = ground arith in
        rw (balance-rated_world k w match_id winner loser a b, not_won, not_lost, h.unrated k le)
          refl;
  }
