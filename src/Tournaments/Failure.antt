-- ===== src/Tournaments/Failure.antt =====
-- What `report_result` of django-api/app/apps/tournaments/services.py leaves behind where it raises:
-- no transaction is open around its steps.
use tournament_platform_sdd.Base.{
  ℕ, ℤ, ◌≡◌, ◌⊎◌, inl, inr, refl, ◌∙◌, ap, Bool, true, false, not, ◌&&◌, ==_refl, Bool-cases, some,
  List, [], ◌∷◌, arith,
}
use tournament_platform_sdd.Exec.{Exec, Error, ok, err, pure, ◌>>◌, match_already_finished}
use tournament_platform_sdd.Exec.Rules.{Keeps, >>=-eq-err}
use tournament_platform_sdd.Models.{World, Match, UserEloHistory, is_finished}
use tournament_platform_sdd.Models.Tables.{find_match, save_match, save_user_elo}
use tournament_platform_sdd.Runtime.{Runtime}
use tournament_platform_sdd.Events.{publish_event}
use tournament_platform_sdd.Teams.Service.{update_elo}
use tournament_platform_sdd.Teams.Idempotent.{update_elo_atomic}
use tournament_platform_sdd.Tournaments.UserRating.{bulk_create, update_team_elo}
use tournament_platform_sdd.Tournaments.Rounds.{update_team_elo-Keeps}
use tournament_platform_sdd.Tournaments.MatchService.{
  reported, match_payload, record_result, report_result,
}
use tournament_platform_sdd.Tournaments.Report.{
  find_match-save_match, report_result-accepted, report_result-refused,
}

-- What is left alone until the teams are rated.
record IsUntold (s w : World) : Type 0 where
  matches : w.matches ≡ s.matches
  teams : w.teams ≡ s.teams
  history : w.team_elo_history ≡ s.team_elo_history
  published : w.published ≡ s.published

module _ (s : World) where
  save_user_elo-IsUntold : (k : ℕ) (elo : ℤ) → Keeps (IsUntold s) (save_user_elo k elo)
  unfolding save_user_elo
  save_user_elo-IsUntold k elo = record { at = λ w h. ground arith }

  bulk_create-IsUntold : (rows : List UserEloHistory) → Keeps (IsUntold s) (bulk_create rows)
  unfolding bulk_create
  bulk_create-IsUntold [] = record { at = λ w h. h }
  bulk_create-IsUntold (row ∷ rows) = record { at = λ w h. ground arith }

-- A match that cannot be saved, and one that is.
pub save_match-err :
    (m : Match) (w : World) {e : Error} → (save_match m w).0 ≡ err e → (save_match m w).1 ≡ w
unfolding save_match
save_match-err m w h = ground arith

-- What a report that raised may have left: the ratings of the teams and their history are as they
-- were, and no event was published.
pub record IsUnrated (s w : World) : Type 0 where
  pub teams : w.teams ≡ s.teams
  pub history : w.team_elo_history ≡ s.team_elo_history
  pub published : w.published ≡ s.published

saved-IsUnrated : (m : Match) (w v : World) → IsUntold (save_match m w).1 v → IsUnrated w v
unfolding save_match
saved-IsUnrated m w v h = record {
  teams = h.teams ∙ ground arith;
  history = h.history ∙ ground arith;
  published = h.published ∙ ground arith;
}

saved_row :
    (k : ℕ) (m r : Match) (w v : World)
    → find_match k w.matches ≡ some m
    → r.id ≡ m.id
    → (save_match r w).0 ≡ ok tt
    → IsUntold (save_match r w).1 v
    → find_match k v.matches ≡ some r
saved_row k m r w v found id saved h =
    ap (find_match k) h.matches
    ∙ find_match-save_match k r w saved
    ∙ rw (found, id, ==_refl m.id) refl

module _ (rt : Runtime) where
  update_team_elo-IsUntold : (m : Match) (s : World) → IsUntold s (update_team_elo rt.floats m s).1
  update_team_elo-IsUntold m s =
      (update_team_elo-Keeps (save_user_elo-IsUntold s) (bulk_create-IsUntold s) rt.floats m).at s
        (record { matches = refl; teams = refl; history = refl; published = refl })

  announced : Match → Exec World Match
  announced m = do publish_event rt "match.finished" (match_payload rt m); pure m

  announced-returns : (m : Match) (w : World) → (announced m w).0 ≡ ok m
  unfolding announced publish_event
  announced-returns m w = elim (Bool-cases (rt.accepts "match.finished" (match_payload rt m))) [
    | inl taken ↦ rw taken refl
    | inr lost ↦ rw lost refl
  ]

  after_save : Match → Exec World Match
  after_save m = update_team_elo rt.floats m >> (update_elo rt.floats m >> announced m)

  -- Where the steps after `match.save()` raise, they have written players at most.
  unsaid :
      (m : Match) (s : World) {e : Error}
      → (after_save m s).0 ≡ err e
      → IsUntold s (after_save m s).1
  unfolding after_save
  unsaid m s {e} h = elim (>>=-eq-err (update_team_elo rt.floats m) _ s h) [
    | inl (raised, same) ↦ rw same (update_team_elo-IsUntold m s)
    | inr (u, players, same) ↦
        let v = (update_team_elo rt.floats m s).1 in
        elim (>>=-eq-err (update_elo rt.floats m) (λ _. announced m) v (rw same at h)) [
          | inl (raised, same') ↦
              rw (same, same', update_elo_atomic rt.floats m v raised)
                (update_team_elo-IsUntold m s)
          | inr (u', teams, same') ↦
              cc (announced-returns m (update_elo rt.floats m v).1, rw (same, same') at h)
        ]
  ]

  record_failure :
      (match_id : ℕ) (m r : Match) (w : World) {e : Error}
      → find_match match_id w.matches ≡ some m
      → r.id ≡ m.id
      → is_finished r.status ≡ true
      → (record_result rt r w).0 ≡ err e
      → let w' = (record_result rt r w).1 in
        IsUnrated w w'
        × ((w' ≡ w)
            ⊎ ((find_match match_id w'.matches ≡ some r)
                × ((k : ℕ) (c d : ℤ)
                    → report_result rt match_id k c d false w' ≡ (err match_already_finished, w'))))
  unfolding record_result announced after_save
  record_failure match_id m r w found id finished h =
      elim (>>=-eq-err (save_match r) (λ _. after_save r) w h) [
        | inl (raised, same) ↦
            let unchanged = same ∙ save_match-err r w raised in
            rw unchanged (record { teams = refl; history = refl; published = refl }, inl refl)
        | inr (u, saved, same) ↦
            let s = (save_match r w).1 in
            let v = (after_save r s).1 in
            let untold = unsaid r s (rw same at h) in
            let row = saved_row match_id m r w v found id saved untold in
            rw same (
              saved-IsUnrated r w v untold,
              inr (
                row,
                λ k c d. report_result-refused rt match_id k c d false v r row (rw finished refl),
              ),
            )
      ]

  -- Where the match is found and the report raises, the ratings of the teams are as they were, their
  -- history too, and no event is published. Either nothing at all has changed, or the match is
  -- finished with the reported result all the same, and from then on every report of it is refused
  -- that does not come from an admin.
  pub report_result_failure :
      (match_id winner_id : ℕ) (a b : ℤ) (is_admin : Bool) (w : World) (m : Match) {e : Error}
      → find_match match_id w.matches ≡ some m
      → (report_result rt match_id winner_id a b is_admin w).0 ≡ err e
      → let w' = (report_result rt match_id winner_id a b is_admin w).1 in
        IsUnrated w w'
        × ((w' ≡ w)
            ⊎ ((find_match match_id w'.matches ≡ some (reported m winner_id a b w.now))
                × ((k : ℕ) (c d : ℤ)
                    → report_result rt match_id k c d false w' ≡ (err match_already_finished, w'))))
  report_result_failure match_id winner_id a b is_admin w m {e} found h =
      elim (Bool-cases (is_finished m.status && not is_admin)) [
        | inl refused ↦
            rw (report_result-refused rt match_id winner_id a b is_admin w m found refused)
              (record { teams = refl; history = refl; published = refl }, inl refl)
        | inr accepted ↦
            let same =
              report_result-accepted rt match_id winner_id a b is_admin w m found accepted in
            rw same (
              record_failure match_id m (reported m winner_id a b w.now) w found refl refl
                (rw same at h))
      ]
