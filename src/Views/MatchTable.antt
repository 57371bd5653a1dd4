-- ===== src/Views/MatchTable.antt =====
-- The answers of `MatchViewSet.report`, django-api/app/apps/tournaments/views.py.
use tournament_platform_sdd.Base.{
  ℕ, pos, pos_part, ◌≤ℤ◌, ◌≡◌, refl, sym, subst, ◌∙◌, ap, true, false, Bool-cases, inl, inr, ◌&&◌,
  not, if◌then◌else◌, none, some, Option-cases, arith,
}
use tournament_platform_sdd.Exec.{Result, ok, err, match_already_finished}
use tournament_platform_sdd.Exec.Rules.{ok-injective}
use tournament_platform_sdd.Models.{World, Match, is_finished}
use tournament_platform_sdd.Models.Tables.{find_match}
use tournament_platform_sdd.Runtime.{Runtime}
use tournament_platform_sdd.Tournaments.MatchService.{reported, record_result}
use tournament_platform_sdd.Tournaments.Report.{
  report_result-accepted, report_result-refused, stored_row, find_match-own,
}
use tournament_platform_sdd.Views.Access.{
  RequestUser, is_admin, is_known_user, has_permission, match_permissions,
}
use tournament_platform_sdd.Views.Matches.{
  ReportData, ValidReport, Response, match_row, plays_in, validate_report, respond, clean,
  report_valid, report, dispatch_report, empty, serializer_errors, already_reported,
}

-- A request that passes the serializer names one of the match's teams as the winner, and scores
-- that are not negative.
pub validate_report_sound :
    (m : Match) (request : ReportData) (vd : ValidReport)
    → validate_report m request ≡ some vd
    → (plays_in m vd.winner_id ≡ true) × (pos 0 ≤ℤ vd.score_team_a) × (pos 0 ≤ℤ vd.score_team_b)
unfolding validate_report
validate_report_sound m request vd h = ground arith

-- With such a winner the match that is written passes `Match.clean`.
reported-clean :
    (m : Match) (vd : ValidReport) (now : ℕ)
    → plays_in m vd.winner_id ≡ true
    → clean (reported m (pos_part vd.winner_id) vd.score_team_a vd.score_team_b now) ≡ ok tt
unfolding clean
reported-clean m vd now h = ground arith

module _ (rt : Runtime) (user : RequestUser) (pk : ℕ) (request : ReportData) (w : World) where
  pub report-unknown :
      find_match pk w.matches ≡ none
      → report rt user pk request w ≡ (ok (record { status = 404; body = empty }), w)
  unfolding report
  report-unknown gone = rw (gone, report)

  module _ (m : Match) (found : find_match pk w.matches ≡ some m) where
    pub report-invalid :
        validate_report m request ≡ none
        → report rt user pk request w ≡ (ok (record { status = 400; body = serializer_errors }), w)
    unfolding report
    report-invalid bad = rw (found, report) (rw bad)

    pub report-valid :
        (vd : ValidReport)
        → validate_report m request ≡ some vd
        → report rt user pk request w ≡ report_valid rt user m vd w
    unfolding report
    report-valid vd good = rw (found, report) (rw good)

    -- What the service is asked to write.
    abbrev pub row : ValidReport → Match
    row vd = reported m (pos_part vd.winner_id) vd.score_team_a vd.score_team_b w.now

    pub report-conflict :
        (vd : ValidReport)
        → validate_report m request ≡ some vd
        → (is_finished m.status && not (is_admin user)) ≡ true
        → report rt user pk request w ≡ (ok (record { status = 409; body = already_reported }), w)
    unfolding report_valid
    report-conflict vd good refused =
        report-valid vd good
        ∙ rw (
            report_result-refused rt m.id (pos_part vd.winner_id) vd.score_team_a vd.score_team_b
              (is_admin user) w m (find_match-own pk w.matches found) refused)

    pub report-accepted :
        (vd : ValidReport)
        → validate_report m request ≡ some vd
        → (is_finished m.status && not (is_admin user)) ≡ false
        → report rt user pk request w
          ≡ respond (if is_finished m.status then 200 else 201) (record_result rt (row vd) w)
    unfolding report_valid
    report-accepted vd good accepted =
        report-valid vd good
        ∙ rw (
            report_result-accepted rt m.id (pos_part vd.winner_id) vd.score_team_a vd.score_team_b
              (is_admin user) w m (find_match-own pk w.matches found) accepted)

pub respond-ok :
    (status : ℕ) (r : Result Match × World) {m : Match}
    → r.0 ≡ ok m
    → respond status r ≡ (ok (record { status = status; body = match_row m }), r.1)
respond-ok status (ok m', w) h =
    ap (λ x. (ok (record { status = status; body = match_row x }), w)) (ok-injective h)
respond-ok status (err e, w) h = cc

match_row-injective :
    {s t : ℕ} {a b : Match}
    → ◌≡◌ {A = Response}
        (record { status = s; body = match_row a })
        (record { status = t; body = match_row b })
    → a ≡ b
match_row-injective h = ground arith

-- A response with a match comes from a result.
respond-match :
    (status s : ℕ) (r : Result Match × World) {m : Match}
    → (respond status r).0 ≡ ok (record { status = s; body = match_row m })
    → (r.0 ≡ ok m) × ((respond status r).1 ≡ r.1)
respond-match status s (ok m', w) {m} h = (cc (match_row-injective (ok-injective h)), refl)
respond-match status s (err match_already_finished, w) h = cc
respond-match status s (err _, w) h = cc

module _ (rt : Runtime) where
  -- What a report that was answered with a match leaves.
  abbrev pub IsSafeMatch : ℕ → Match → World → Type 0
  IsSafeMatch pk m' w' =
      (find_match pk w'.matches ≡ some m')
      × (is_finished m'.status ≡ true)
      × (clean m' ≡ ok tt)
      × (pos 0 ≤ℤ m'.score_a)
      × (pos 0 ≤ℤ m'.score_b)

  written_safe :
      (pk : ℕ) (request : ReportData) (w : World) (m m' : Match) (vd : ValidReport)
      → find_match pk w.matches ≡ some m
      → validate_report m request ≡ some vd
      → (record_result rt
          (reported m (pos_part vd.winner_id) vd.score_team_a vd.score_team_b w.now)
          w).0
        ≡ ok m'
      → IsSafeMatch pk m'
          (record_result rt
            (reported m (pos_part vd.winner_id) vd.score_team_a vd.score_team_b w.now)
            w).1
  written_safe pk request w m m' vd found good done =
      let (winner, above, above') = validate_report_sound m request vd good in
      let (same, stored, _) =
        stored_row rt pk (pos_part vd.winner_id) vd.score_team_a vd.score_team_b w m m' found
          done in
      (
        stored,
        ap (λ x. is_finished x.status) same,
        ap clean same ∙ reported-clean m vd w.now winner,
        subst (λ x. pos 0 ≤ℤ x.score_a) (sym same) above,
        subst (λ x. pos 0 ≤ℤ x.score_b) (sym same) above',
      )

  report_safe :
      (user : RequestUser) (pk : ℕ) (request : ReportData) (w : World) (s : ℕ) (m' : Match)
      → (report rt user pk request w).0 ≡ ok (record { status = s; body = match_row m' })
      → IsSafeMatch pk m' (report rt user pk request w).1
  report_safe user pk request w s m' h = elim (Option-cases (find_match pk w.matches)) [
    | inl gone ↦ cc (rw (report-unknown rt user pk request w gone) at h)
    | inr (m, found) ↦ elim (Option-cases (validate_report m request)) [
      | inl bad ↦ cc (rw (report-invalid rt user pk request w m found bad) at h)
      | inr (vd, good) ↦ elim (Bool-cases (is_finished m.status && not (is_admin user))) [
        | inl refused ↦ cc (rw (report-conflict rt user pk request w m found vd good refused) at h)
        | inr accepted ↦
            let e = report-accepted rt user pk request w m found vd good accepted in
            let (done, same) = respond-match _ s _ (rw e at h) in
            rw (e, same) (written_safe pk request w m m' vd found good done)
      ]
    ]
  ]

  -- Whoever sends it: an answer with a match means that the sender is a known user, and the match is
  -- stored, finished, has one of its two teams as the winner and no negative score, so that it
  -- passes `Match.clean`, which the code itself never calls.
  pub dispatch_report_safe :
      (user : RequestUser) (pk : ℕ) (request : ReportData) (w : World) (s : ℕ) (m' : Match)
      → (dispatch_report rt user pk request w).0 ≡ ok (record { status = s; body = match_row m' })
      → (is_known_user user ≡ true) × IsSafeMatch pk m' (dispatch_report rt user pk request w).1
  unfolding dispatch_report has_permission match_permissions
  dispatch_report_safe RequestUser.anonymous pk request w s m' h = cc
  dispatch_report_safe (RequestUser.authenticated u) pk request w s m' h =
      (refl, report_safe (RequestUser.authenticated u) pk request w s m' h)
