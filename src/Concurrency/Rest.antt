-- ===== src/Concurrency/Rest.antt =====
-- What is left of `report_result` at a stage, as an operation: a statement leaves to do what was left
-- without it.
use tournament_platform_sdd.Base.{
  ◌≡◌, refl, sym, ◌∙◌, ap, not, ◌&&◌, inl, inr, Bool-cases, Option-cases, some, List, [], ◌∷◌, ◌++◌,
  append-nil, append_assoc,
}
use tournament_platform_sdd.Exec.{Exec, Result, ok, err, pure, atomic, ◌>>=◌, ◌>>◌}
use tournament_platform_sdd.Exec.Rules.{>>=_assoc, >>=_congr}
use tournament_platform_sdd.Models.{World, Match, User, UserEloHistory, is_finished}
use tournament_platform_sdd.Models.Tables.{find_match, save_match}
use tournament_platform_sdd.Runtime.{Runtime}
use tournament_platform_sdd.Events.{publish_event}
use tournament_platform_sdd.Teams.Service.{is_rated, loser_id, rate_teams, update_elo}
use tournament_platform_sdd.Teams.Idempotent.{update_elo-rated, update_elo-new}
use tournament_platform_sdd.Tournaments.UserRating.{
  members_of, bulk_create, for_members, rate_winner, rate_loser, update_team_elo,
}
use tournament_platform_sdd.Tournaments.Rounds.{for_members-nil, for_members-cons}
use tournament_platform_sdd.Tournaments.MatchService.{match_payload, record_result, report_result}
use tournament_platform_sdd.Concurrency.{
  Stage, fetching, saving, listing_winners, listing_losers, rating_winners, rating_losers,
  recording, checking, rating_teams, publishing, ended, accept, proceed, advance,
}

-- A loop whose rows are added to those that are collected already: none is left, or one round.
module _ (round : User → Exec World UserEloHistory) where
  abbrev looped :
      List User → List UserEloHistory → (List UserEloHistory → Exec World Match) → Exec World Match
  looped users records k = for_members round users >>= λ rows. k (records ++ rows)

  no_round :
      (records : List UserEloHistory) (k : List UserEloHistory → Exec World Match) (w : World)
      → looped [] records k w ≡ k records w
  no_round records k w =
      ap (λ loop. (loop >>= λ rows. k (records ++ rows)) w) (for_members-nil round)
      ∙ ap (λ rows. k rows w) (append-nil records)

  one_round :
      (user : User) (users : List User) (records : List UserEloHistory)
      (k : List UserEloHistory → Exec World Match) (w : World)
      → looped (user ∷ users) records k w
        ≡ (round user >>= λ row. looped users (records ++ row ∷ []) k) w
  one_round user users records k w =
      ap (λ loop. (loop >>= λ rows. k (records ++ rows)) w) (for_members-cons round user users)
      ∙ >>=_assoc (round user) _ _ w
      ∙ >>=_congr (round user) _ _ w λ row v.
        >>=_assoc (for_members round users) _ _ v
        ∙ >>=_congr (for_members round users) _ _ v
            λ rows u. ap (λ all. k all u) (sym (append_assoc records (row ∷ []) rows))

module _ (rt : Runtime) where
  unfoldable pub announce : Match → Exec World Match
  announce m = do publish_event rt "match.finished" (match_payload rt m); pure m

  unfoldable pub after_players : Match → Exec World Match
  after_players m = do update_elo rt.floats m; announce m

  unfoldable pub after_winners : Match → List User → List UserEloHistory → Exec World Match
  after_winners m losers records = do
    rows ← for_members (rate_loser rt.floats m) losers
    bulk_create (records ++ rows)
    after_players m

  -- What is left of the function at a stage.
  unfoldable pub rest : Stage → Exec World Match
  rest (fetching match_id winner_id a b is_admin) w =
      report_result rt match_id winner_id a b is_admin w
  rest (saving m) w = record_result rt m w
  rest (listing_winners m) w = (update_team_elo rt.floats m >> after_players m) w
  rest (listing_losers m winners) w =
      (for_members (rate_winner rt.floats m) winners
          >>= after_winners m (members_of (some (loser_id m)) w))
        w
  rest (rating_winners m users losers records) w =
      (for_members (rate_winner rt.floats m) users >>= λ rows.
      after_winners m losers (records ++ rows))
        w
  rest (rating_losers m users records) w = after_winners m users records w
  rest (recording m records) w = (bulk_create records >> after_players m) w
  rest (checking m) w = after_players m w
  rest (rating_teams m) w = (atomic (rate_teams rt.floats m) >> announce m) w
  rest (publishing m) w = announce m w
  rest (ended result) w = (result, w)

  -- Where a statement is the first part of what is left.
  proceed-rest :
      {A : Type 0} (m : Exec World A) (next : A → Stage) (k : A → Exec World Match) (w : World)
      → ((a : A) (v : World) → k a v ≡ rest (next a) v)
      → (m >>= k) w ≡ rest (proceed (m w) next).0 (proceed (m w) next).1
  proceed-rest {A} m next k w same = at_result (m w).0 (m w).1
    where
      at_result :
          (r : Result A) (v : World)
          → ((λ (u : World). (r, v)) >>= k) w ≡ rest (proceed (r, v) next).0 (proceed (r, v) next).1
      at_result (ok a) v = same a v
      at_result (err e) v = unfold rest in refl

  -- A statement leaves to do what was left without it.
  pub advance-rest :
      (s : Stage) (w : World) → let (s', w') = advance rt s w in rest s w ≡ rest s' w'
  unfolding rest advance announce after_players after_winners record_result report_result accept
      update_team_elo
  advance-rest (fetching match_id winner_id a b is_admin) w =
      elim (Option-cases (find_match match_id w.matches)) [
        | inl gone ↦ rw gone refl
        | inr (m, found) ↦ elim (Bool-cases (is_finished m.status && not is_admin)) [
          | inl refused ↦ rw (found, refused) refl
          | inr accepted ↦ rw (found, accepted) refl
        ]
      ]
  advance-rest (saving m) w = proceed-rest (save_match m) (λ _. listing_winners m) _ w (λ a v. refl)
  advance-rest (listing_winners m) w =
      let winners = members_of m.winner_team_id w in
      let losers = members_of (some (loser_id m)) w in
      >>=_assoc (for_members (rate_winner rt.floats m) winners) _ (λ _. after_players m) w
      ∙ >>=_congr (for_members (rate_winner rt.floats m) winners) _ (after_winners m losers) w
          (λ rows v.
            >>=_assoc (for_members (rate_loser rt.floats m) losers) _ (λ _. after_players m) v)
  advance-rest (listing_losers m winners) w = refl
  advance-rest (rating_winners m [] losers records) w =
      no_round (rate_winner rt.floats m) records (after_winners m losers) w
  advance-rest (rating_winners m (user ∷ users) losers records) w =
      one_round (rate_winner rt.floats m) user users records (after_winners m losers) w
      ∙ proceed-rest (rate_winner rt.floats m user)
          (λ row. rating_winners m users losers (records ++ row ∷ [])) _ w (λ row v. refl)
  advance-rest (rating_losers m [] records) w =
      no_round (rate_loser rt.floats m) records (λ rows. bulk_create rows >> after_players m) w
  advance-rest (rating_losers m (user ∷ users) records) w =
      one_round (rate_loser rt.floats m) user users records
        (λ rows. bulk_create rows >> after_players m) w
      ∙ proceed-rest (rate_loser rt.floats m user)
          (λ row. rating_losers m users (records ++ row ∷ [])) _ w (λ row v. refl)
  advance-rest (recording m records) w =
      proceed-rest (bulk_create records) (λ _. checking m) _ w (λ a v. refl)
  advance-rest (checking m) w = elim (Bool-cases (is_rated m.id w)) [
    | inl rated ↦
        rw rated
          (ap (λ x. ((λ (v : World). x) >> announce m) w) (update_elo-rated rt.floats m w rated))
    | inr new ↦
        rw new (ap (λ x. ((λ (v : World). x) >> announce m) w) (update_elo-new rt.floats m w new))
  ]
  advance-rest (rating_teams m) w =
      proceed-rest (atomic (rate_teams rt.floats m)) (λ _. publishing m) _ w (λ a v. refl)
  advance-rest (publishing m) w =
      proceed-rest (publish_event rt "match.finished" (match_payload rt m)) (λ _. ended (ok m)) _ w
        (λ a v. refl)
  advance-rest (ended result) w = refl
