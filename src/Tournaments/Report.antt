-- ===== src/Tournaments/Report.antt =====
-- `MatchService.report_result` of django-api/app/apps/tournaments/services.py: who is refused, what
-- is stored, and what a failure leaves behind.
use tournament_platform_sdd.Base.{
  sym, subst, ℕ, ℤ, ◌≡◌, ◌≢◌, refl, ◌∙◌, ap, Bool, true, false, not, ◌&&◌, ◌==◌, ==_iff, some,
  Option-cases, Bool-cases, inl, inr, List, arith, find?-update_where, find?-holds, if◌then◌else◌,
}
use mathlib.Core.Option
use tournament_platform_sdd.Exec.{Exec, ok, err, pure, ◌>>◌, match_already_finished}
use tournament_platform_sdd.Exec.Rules.{
  Keeps, keeps_rules, Returns, Returns-pure, Returns-bind, >>=-eq-ok,
}
use tournament_platform_sdd.Models.{World, Match, MatchStatus, is_finished}
use tournament_platform_sdd.Models.Tables.{find_match, save_match}
use tournament_platform_sdd.Runtime.{Runtime}
use tournament_platform_sdd.Events.{publish_event}
use tournament_platform_sdd.Teams.Service.{update_elo}
use tournament_platform_sdd.Tournaments.UserRating.{update_team_elo}
use tournament_platform_sdd.Tournaments.MatchService.{
  reported, match_payload, record_result, report_result,
}
use tournament_platform_sdd.Tournaments.Frames.{
  IsFramed, update_elo-IsFramed, update_team_elo-IsFramed, publish_event-Keeps,
}

pub find_match-id : (k : ℕ) (ms : List Match) {m : Match} → find_match k ms ≡ some m → m.id ≡ k
find_match-id k ms h = (==_iff _ k).0 (find?-holds (λ m. m.id == k) ms h)

-- A row is found by its own id.
pub find_match-own :
    (k : ℕ) (ms : List Match) {m : Match} → find_match k ms ≡ some m → find_match m.id ms ≡ some m
find_match-own k ms {m} h = subst (λ j. find_match j ms ≡ some m) (sym (find_match-id k ms h)) h

module _ (rt : Runtime) where
  pub report_result-accepted :
      (match_id winner_id : ℕ) (a b : ℤ) (is_admin : Bool) (w : World) (m : Match)
      → find_match match_id w.matches ≡ some m
      → (is_finished m.status && not is_admin) ≡ false
      → report_result rt match_id winner_id a b is_admin w
        ≡ record_result rt (reported m winner_id a b w.now) w
  unfolding report_result
  report_result-accepted match_id winner_id a b is_admin w m found accepted = rw found (rw accepted)

  pub report_result-refused :
      (match_id winner_id : ℕ) (a b : ℤ) (is_admin : Bool) (w : World) (m : Match)
      → find_match match_id w.matches ≡ some m
      → (is_finished m.status && not is_admin) ≡ true
      → report_result rt match_id winner_id a b is_admin w ≡ (err match_already_finished, w)
  unfolding report_result
  report_result-refused match_id winner_id a b is_admin w m found refused = rw found (rw refused)

  -- A report that returns was carried out.
  pub report_result-carried :
      (match_id winner_id : ℕ) (a b : ℤ) (is_admin : Bool) (w : World) (m : Match) {m' : Match}
      → find_match match_id w.matches ≡ some m
      → (report_result rt match_id winner_id a b is_admin w).0 ≡ ok m'
      → report_result rt match_id winner_id a b is_admin w
        ≡ record_result rt (reported m winner_id a b w.now) w
  report_result-carried match_id winner_id a b is_admin w m found h =
      elim (Bool-cases (is_finished m.status && not is_admin)) [
        | inl refused ↦
            cc (rw (report_result-refused match_id winner_id a b is_admin w m found refused) at h)
        | inr accepted ↦ report_result-accepted match_id winner_id a b is_admin w m found accepted
      ]

  -- The steps after `match.save()`.
  after_save : Match → Exec World Match
  after_save m = do
    update_team_elo rt.floats m
    update_elo rt.floats m
    publish_event rt "match.finished" (match_payload rt m)
    pure m

  record_result-eq : (m : Match) → record_result rt m ≡ (save_match m >> after_save m)
  unfolding record_result after_save
  record_result-eq m = refl

  after_save-Returns : (m : Match) → Returns m (after_save m)
  unfolding after_save
  after_save-Returns m = search (Returns-bind, Returns-pure) depth 10

  after_save-Keeps :
      (m : Match) (w : World) → Keeps (IsFramed w.matches w.team_members) (after_save m)
  unfolding after_save
  after_save-Keeps m w =
      search (keeps_rules, update_elo-IsFramed, update_team_elo-IsFramed, publish_event-Keeps) depth
        10

-- What `match.save()` does to the lookups of matches.
pub find_match-save_match :
    (k : ℕ) (m : Match) (w : World)
    → (save_match m w).0 ≡ ok tt
    → find_match k (save_match m w).1.matches
      ≡ Option.map (λ x. if x.id == m.id then m else x) (find_match k w.matches)
unfolding save_match
find_match-save_match k m w h =
    let updated =
      find?-update_where (λ (x : Match). x.id == k) (λ x. x.id == m.id) (λ x. m) w.matches
        (λ x e. ground arith) in
    ground (arith, updated)

save_match_ne :
    (k : ℕ) (m : Match) (w : World)
    → (save_match m w).0 ≡ ok tt
    → k ≢ m.id
    → find_match k (save_match m w).1.matches ≡ find_match k w.matches
save_match_ne k m w h ne =
    rw (find_match-save_match k m w h) (elim (Option-cases (find_match k w.matches)) [
      | inl gone ↦ rw gone
      | inr (x, found) ↦ rw found (ground (arith, find_match-id k w.matches found))
    ])

module _ (rt : Runtime) where
  record_result-ok :
      (m : Match) (w : World) {m' : Match}
      → (record_result rt m w).0 ≡ ok m'
      → ((save_match m w).0 ≡ ok tt)
        × (m' ≡ m)
        × ((record_result rt m w).1.matches ≡ (save_match m w).1.matches)
  record_result-ok m w {m'} h =
      let (u, saved, e) =
        >>=-eq-ok (save_match m) (λ _. after_save rt m) w (rw (record_result-eq rt m) at h) in
      let s = (save_match m w).1 in
      let whole = ap (λ f. f w) (record_result-eq rt m) ∙ e in
      (
        saved,
        (after_save-Returns rt m).at s m' (rw whole at h),
        rw whole (
            ((after_save-Keeps rt m s).at s
              (record { same_matches = refl; same_members = refl })).same_matches),
      )

  pub stored_row :
      (match_id winner_id : ℕ) (a b : ℤ) (w : World) (m m' : Match)
      → find_match match_id w.matches ≡ some m
      → (record_result rt (reported m winner_id a b w.now) w).0 ≡ ok m'
      → let w' = (record_result rt (reported m winner_id a b w.now) w).1 in
        (m' ≡ reported m winner_id a b w.now)
        × (find_match match_id w'.matches ≡ some m')
        × ((k : ℕ) → k ≢ match_id → find_match k w'.matches ≡ find_match k w.matches)
  stored_row match_id winner_id a b w m m' found h =
      let r = reported m winner_id a b w.now in
      let (saved, same, tables) = record_result-ok r w h in
      let id = find_match-id match_id w.matches found in
      (
        same,
        rw (tables, find_match-save_match match_id r w saved, found, same) (ground (arith, id)),
        λ k ne. rw tables (save_match_ne k r w saved (λ e. ne (e ∙ id))),
      )

  -- A report that is carried out to its end returns the match with the reported winner and the
  -- score of each of its teams, finished now and otherwise as it was. Exactly that row is stored, and
  -- every other match is found as before.
  pub report_result_stored :
      (match_id winner_id : ℕ) (a b : ℤ) (is_admin : Bool) (w : World) (m m' : Match)
      → find_match match_id w.matches ≡ some m
      → (report_result rt match_id winner_id a b is_admin w).0 ≡ ok m'
      → let w' = (report_result rt match_id winner_id a b is_admin w).1 in
        (m' ≡ record m {
          status = MatchStatus.finished;
          winner_team_id = some winner_id;
          score_a = a;
          score_b = b;
          played_at = some w.now;
        })
        × (find_match match_id w'.matches ≡ some m')
        × ((k : ℕ) → k ≢ match_id → find_match k w'.matches ≡ find_match k w.matches)
  report_result_stored match_id winner_id a b is_admin w m m' found h =
      let carried = report_result-carried rt match_id winner_id a b is_admin w m found h in
      rw carried (stored_row match_id winner_id a b w m m' found (rw carried at h))
