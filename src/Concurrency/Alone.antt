-- ===== src/Concurrency/Alone.antt =====
-- A report that nothing else interrupts: statement by statement it is `report_result`, the model of
-- the whole function in Tournaments/MatchService.antt.
use tournament_platform_sdd.Base.{
  ℕ, zero, suc, ℤ, ◌≡◌, refl, sym, ◌∙◌, ap, Bool, inl, inr, Bool-cases, List, [], ◌∷◌, ◌++◌,
}
use tournament_platform_sdd.Exec.{Result, ok, err, atomic}
use tournament_platform_sdd.Models.{World, Match, User, UserEloHistory}
use tournament_platform_sdd.Models.Tables.{save_match}
use tournament_platform_sdd.Runtime.{Runtime}
use tournament_platform_sdd.Events.{publish_event}
use tournament_platform_sdd.Teams.Service.{is_rated, rate_teams}
use tournament_platform_sdd.Tournaments.UserRating.{bulk_create, rate_winner, rate_loser}
use tournament_platform_sdd.Tournaments.MatchService.{match_payload, report_result}
use tournament_platform_sdd.Concurrency.{
  Stage, fetching, saving, listing_winners, listing_losers, rating_winners, rating_losers,
  recording, checking, rating_teams, publishing, ended, accept, proceed, advance,
}
use tournament_platform_sdd.Concurrency.Rest.{rest, advance-rest}

module _ (rt : Runtime) where
  -- So many statements in a row.
  unfoldable pub advances : ℕ → Stage → World → Stage × World
  advances zero s w = (s, w)
  advances (suc n) s w = let (s', w') = advance rt s w in advances n s' w'

  abbrev Ends : Stage × World → Type 0
  Ends (s, w) = (n : ℕ) × (r : Result Match) × (v : World) × (advances n s w ≡ (ended r, v))

  Ends-ended : (r : Result Match) (w : World) → Ends (ended r, w)
  unfolding advances
  Ends-ended r w = (0, r, w, refl)

  Ends-advance : (s : Stage) (w : World) → Ends (advance rt s w) → Ends (s, w)
  unfolding advances
  Ends-advance s w (n, r, v, e) = (suc n, r, v, e)

  Ends-proceed :
      {A : Type 0} (x : Result A × World) (next : A → Stage)
      → ((a : A) (v : World) → Ends (next a, v))
      → Ends (proceed x next)
  Ends-proceed (ok a, v) next later = later a v
  Ends-proceed (err e, v) next later = Ends-ended (err e) v

  publishing-Ends : (m : Match) (w : World) → Ends (publishing m, w)
  unfolding advance
  publishing-Ends m w = Ends-advance (publishing m) w (
      Ends-proceed (publish_event rt "match.finished" (match_payload rt m) w) _
        (λ a. Ends-ended (ok m)))

  rating_teams-Ends : (m : Match) (w : World) → Ends (rating_teams m, w)
  unfolding advance
  rating_teams-Ends m w =
      Ends-advance (rating_teams m) w
        (Ends-proceed (atomic (rate_teams rt.floats m) w) _ (λ a. publishing-Ends m))

  checking-Ends : (m : Match) (w : World) → Ends (checking m, w)
  unfolding advance
  checking-Ends m w = Ends-advance (checking m) w (elim (Bool-cases (is_rated m.id w)) [
    | inl rated ↦ rw rated (publishing-Ends m w)
    | inr new ↦ rw new (rating_teams-Ends m w)
  ])

  recording-Ends :
      (m : Match) (records : List UserEloHistory) (w : World) → Ends (recording m records, w)
  unfolding advance
  recording-Ends m records w =
      Ends-advance (recording m records) w
        (Ends-proceed (bulk_create records w) _ (λ a. checking-Ends m))

  rating_losers-Ends :
      (m : Match) (users : List User) (records : List UserEloHistory) (w : World)
      → Ends (rating_losers m users records, w)
  unfolding advance
  rating_losers-Ends m [] records w =
      Ends-advance (rating_losers m [] records) w (recording-Ends m records w)
  rating_losers-Ends m (user ∷ users) records w =
      Ends-advance (rating_losers m (user ∷ users) records) w (
        Ends-proceed (rate_loser rt.floats m user w) _
          (λ row. rating_losers-Ends m users (records ++ row ∷ [])))

  rating_winners-Ends :
      (m : Match) (users losers : List User) (records : List UserEloHistory) (w : World)
      → Ends (rating_winners m users losers records, w)
  unfolding advance
  rating_winners-Ends m [] losers records w =
      Ends-advance (rating_winners m [] losers records) w (rating_losers-Ends m losers records w)
  rating_winners-Ends m (user ∷ users) losers records w =
      Ends-advance (rating_winners m (user ∷ users) losers records) w (
        Ends-proceed (rate_winner rt.floats m user w) _
          (λ row. rating_winners-Ends m users losers (records ++ row ∷ [])))

  saving-Ends : (m : Match) (w : World) → Ends (saving m, w)
  unfolding advance
  saving-Ends m w = Ends-advance (saving m) w (
      Ends-proceed (save_match m w) _ (λ a v.
        Ends-advance (listing_winners m) v
          (Ends-advance (listing_losers m _) v (rating_winners-Ends m _ _ [] v))))

  fetching-Ends :
      (match_id winner_id : ℕ) (a b : ℤ) (is_admin : Bool) (w : World)
      → Ends (fetching match_id winner_id a b is_admin, w)
  unfolding advance
  fetching-Ends match_id winner_id a b is_admin w =
      Ends-advance (fetching match_id winner_id a b is_admin) w
        (Ends-proceed (accept match_id winner_id a b is_admin w) _ saving-Ends)

  advances-rest :
      (n : ℕ) (s : Stage) (w : World) → let (s', w') = advances n s w in rest rt s w ≡ rest rt s' w'
  unfolding advances
  advances-rest zero s w = refl
  advances-rest (suc n) s w =
      advance-rest rt s w ∙ advances-rest n (advance rt s w).0 (advance rt s w).1

  -- A report that nothing else interrupts comes to its end after some number of statements, whatever
  -- the state was, and it ends with exactly the result and the state of `report_result`.
  pub report_result-advances :
      (match_id winner_id : ℕ) (a b : ℤ) (is_admin : Bool) (w : World)
      → let (r, w') = report_result rt match_id winner_id a b is_admin w in
        (n : ℕ) × (advances n (fetching match_id winner_id a b is_admin) w ≡ (ended r, w'))
  unfolding rest
  report_result-advances match_id winner_id a b is_admin w =
      let start = fetching match_id winner_id a b is_admin in
      let (n, r, v, e) = fetching-Ends match_id winner_id a b is_admin w in
      let same = advances-rest n start w ∙ ap (λ x. rest rt x.0 x.1) e in
      (n, e ∙ ap (λ x. (ended x.0, x.1)) (sym same))
