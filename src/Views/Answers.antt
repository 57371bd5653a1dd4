-- ===== src/Views/Answers.antt =====
-- The table of answers of `MatchViewSet.report`, django-api/app/apps/tournaments/views.py, by what a
-- request holds.
use tournament_platform_sdd.Base.{
  ℕ, ℤ, pos, negsuc, ◌≡◌, ◌≢◌, refl, ◌∙◌, false, Bool-cases, ◌⊎◌, inl, inr, if◌then◌else◌, Option,
  none, some, arith,
}
use tournament_platform_sdd.Exec.{ok}
use tournament_platform_sdd.Models.{
  World, User, Role, Match, MatchStatus, is_finished, is_admin_role,
}
use tournament_platform_sdd.Models.Tables.{find_match}
use tournament_platform_sdd.Runtime.{Runtime}
use tournament_platform_sdd.Tournaments.MatchService.{report_result}
use tournament_platform_sdd.Tournaments.Report.{report_result_stored, find_match-own}
use tournament_platform_sdd.Views.Access.{
  anonymous, authenticated, has_permission, match_permissions,
}
use tournament_platform_sdd.Views.Matches.{
  ReportData, match_row, plays_in, validate_report, report_valid, dispatch_report, empty,
  serializer_errors, already_reported, not_permitted,
}
use tournament_platform_sdd.Views.MatchTable.{
  report-unknown, report-invalid, report-valid, report-conflict, respond-ok,
}

-- The request has all fields: one of the match's teams as the winner, and natural numbers as scores.
pub record HasValidFields (m : Match) (request : ReportData) (winner a b : ℕ) : Type 0 where
  pub names : request.winner_id ≡ some (pos winner)
  pub plays : (winner ≡ m.team_a_id) ⊎ (winner ≡ m.team_b_id)
  pub first : request.score_team_a ≡ some (pos a)
  pub second : request.score_team_b ≡ some (pos b)

-- The serializer lets such requests through and no others.
validate_report-HasValidFields :
    (m : Match) (request : ReportData) (winner a b : ℕ)
    → HasValidFields m request winner a b
    → validate_report m request
      ≡ some (record { winner_id = pos winner; score_team_a = pos a; score_team_b = pos b })
unfolding validate_report
validate_report-HasValidFields m request winner a b h =
    rw (h.names, h.first, h.second) (ground arith)

validate_report-none :
    (m : Match) (x y z : Option ℤ)
    → let request : ReportData = record { winner_id = x; score_team_a = y; score_team_b = z } in
      ((winner a b : ℕ) → ¬ HasValidFields m request winner a b) → validate_report m request ≡ none
unfolding validate_report
validate_report-none m none y z h = refl
validate_report-none m (some (negsuc n)) y z h = ground arith
validate_report-none m (some (pos k)) none z h = ground arith
validate_report-none m (some (pos k)) (some (negsuc i)) z h = ground arith
validate_report-none m (some (pos k)) (some (pos a)) none h = ground arith
validate_report-none m (some (pos k)) (some (pos a)) (some (negsuc j)) h = ground arith
validate_report-none m (some (pos k)) (some (pos a)) (some (pos b)) h =
    elim (Bool-cases (plays_in m (pos k))) [
      | inr stranger ↦ ground arith
      | inl plays ↦
          absurd
            (h k a b (record { names = refl; plays = ground arith; first = refl; second = refl }))
    ]

not_admin : (r : Role) → r ≢ Role.admin → is_admin_role r ≡ false
not_admin Role.admin h = absurd (h refl)
not_admin Role.organizer h = refl
not_admin Role.player h = refl

module _ (rt : Runtime) where
  -- The whole table of answers to a report at the endpoint. No user: 401. A user and an unknown
  -- match: 404. A winner that is not one of the match's two teams, a negative score or a missing
  -- field: 400. A finished match and a user who is not an admin: 409. None of these changes
  -- anything. Where the service returns, the body is the match with the reported winner and
  -- scores, finished now, with 200 over a finished match and 201 for a first report, and the state
  -- is the service's.
  pub report_answers :
      (u : User) (pk : ℕ) (request : ReportData) (w : World)
      → (dispatch_report rt anonymous pk request w
          ≡ (ok (record { status = 401; body = not_permitted }), w))
        × (find_match pk w.matches ≡ none
            → dispatch_report rt (authenticated u) pk request w
              ≡ (ok (record { status = 404; body = empty }), w))
        × ((m : Match)
            → find_match pk w.matches ≡ some m
            → (((winner a b : ℕ) → ¬ HasValidFields m request winner a b)
                → dispatch_report rt (authenticated u) pk request w
                  ≡ (ok (record { status = 400; body = serializer_errors }), w))
              × ((winner a b : ℕ)
                  → HasValidFields m request winner a b
                  → (m.status ≡ MatchStatus.finished
                      → u.role ≢ Role.admin
                      → dispatch_report rt (authenticated u) pk request w
                        ≡ (ok (record { status = 409; body = already_reported }), w))
                    × ((m' : Match)
                        → let done =
                            report_result rt m.id winner (pos a) (pos b) (is_admin_role u.role) w in
                          done.0 ≡ ok m'
                          → dispatch_report rt (authenticated u) pk request w ≡ (
                            ok (record {
                              status = if is_finished m.status then 200 else 201;
                              body = match_row (record m {
                                status = MatchStatus.finished;
                                winner_team_id = some winner;
                                score_a = pos a;
                                score_b = pos b;
                                played_at = some w.now;
                              });
                            }),
                            done.1,
                          ))))
  unfolding dispatch_report has_permission match_permissions report_valid
  report_answers u pk request w = (
    refl,
    report-unknown rt (authenticated u) pk request w,
    λ m found. (
      λ bad.
          report-invalid rt (authenticated u) pk request w m found (
            validate_report-none m request.winner_id request.score_team_a request.score_team_b bad),
      λ winner a b good. (
        λ done player.
            report-conflict rt (authenticated u) pk request w m found _
              (validate_report-HasValidFields m request winner a b good)
              (rw (done, not_admin u.role player) refl),
        λ m' returned.
            let own = find_match-own pk w.matches found in
            let (row, _, _) =
              report_result_stored rt m.id winner (pos a) (pos b) (is_admin_role u.role) w m m' own
                returned in
            report-valid rt (authenticated u) pk request w m found _
              (validate_report-HasValidFields m request winner a b good)
            ∙ respond-ok _ _ returned
            ∙ rw row refl,
      ),
    ),
  )
