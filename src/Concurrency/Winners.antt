-- ===== src/Concurrency/Winners.antt =====
-- The winner of a match plays in it also while reports are served at the same time: between the
-- view's validation of the winner and the save of the row anything else may happen.
use tournament_platform_sdd.Base.{
  ℕ, zero, suc, pos_part, ◌≡◌, refl, true, ◌==◌, ◌||◌, List, [], ◌∷◌, ◌++◌, All, arith, Bool-cases,
  Option-cases, inl, inr,
}
use tournament_platform_sdd.Json.{Wire}
use tournament_platform_sdd.Models.{World}
use tournament_platform_sdd.Models.Tables.{find_match}
use tournament_platform_sdd.Runtime.{Runtime}
use tournament_platform_sdd.Tournaments.Report.{find_match-own}
use tournament_platform_sdd.Views.Access.{RequestUser, Action, has_permission, match_permissions}
use tournament_platform_sdd.Views.Matches.{ReportData, validate_report}
use tournament_platform_sdd.Views.MatchTable.{validate_report_sound}
use tournament_platform_sdd.Platform.Steps.{perform-Keeps}
use tournament_platform_sdd.Platform.Winners.{AllWinnersPlay, writes-AllWinnersPlay}
use tournament_platform_sdd.Concurrency.{
  Stage, view_report, advance, advance_at, System, Happening, happen, run,
}
use tournament_platform_sdd.Concurrency.Teams.{writes-HasTeams}
use tournament_platform_sdd.Platform.{perform}
use tournament_platform_sdd.Concurrency.Checked.{
  IsChecked, KeepsTeams, IsChecked-later, advance-IsChecked, advance-KeepsTeams,
  advance-AllWinnersPlay,
}

All-later :
    (w v : World) (ss : List Stage) → KeepsTeams w v → All (IsChecked w) ss → All (IsChecked v) ss
All-later w v [] kept h = tt
All-later w v (s ∷ ss) kept h = (IsChecked-later w v s kept h.0, All-later w v ss kept h.1)

All-append :
    (w : World) (ss ts : List Stage)
    → All (IsChecked w) ss
    → All (IsChecked w) ts
    → All (IsChecked w) (ss ++ ts)
All-append w [] ts h g = g
All-append w (s ∷ ss) ts h g = (h.0, All-append w ss ts h.1 g)

-- The view lets a report through only with a winner that plays in the match.
view_report-IsChecked :
    (user : RequestUser) (pk : ℕ) (request : ReportData) (w : World)
    → All (IsChecked w) (view_report user pk request w)
unfolding view_report
view_report-IsChecked user pk request w =
    elim (Bool-cases (has_permission (match_permissions Action.report) user)) [
      | inr refused ↦ rw refused tt
      | inl known ↦ elim (Option-cases (find_match pk w.matches)) [
        | inl gone ↦ rw (known, gone) tt
        | inr (m, found) ↦ elim (Option-cases (validate_report m request)) [
          | inl bad ↦ rw (known, found, bad) tt
          | inr (vd, good) ↦
              let (winner, _, _) = validate_report_sound m request vd good in
              let plays : (pos_part vd.winner_id == m.team_a_id
                    || pos_part vd.winner_id == m.team_b_id)
                  ≡ true =
                ground arith in
              rw (known, found, good)
                (
                  (
                    m.team_a_id,
                    m.team_b_id,
                    (m, find_match-own pk w.matches found, refl, refl),
                    plays,
                  ),
                  tt,
                )
        ]
      ]
    ]

module _ (wire : Wire) (rt : Runtime) where
  advance_at-kept :
      (i : ℕ) (ss : List Stage) (w : World)
      → All (IsChecked w) ss
      → AllWinnersPlay w
      → let (ss', w') = advance_at rt i ss w in
        KeepsTeams w w' × All (IsChecked w') ss' × AllWinnersPlay w'
  unfolding advance_at
  advance_at-kept i [] w checked h = (λ k a b teams. teams, tt, h)
  advance_at-kept zero (s ∷ ss) w checked h =
      let kept = advance-KeepsTeams wire rt s w checked.0 in
      (
        kept,
        (advance-IsChecked wire rt s w checked.0, All-later w (advance rt s w).1 ss kept checked.1),
        advance-AllWinnersPlay wire rt s w checked.0 h,
      )
  advance_at-kept (suc i) (s ∷ ss) w checked h =
      let (kept, rest, plays) = advance_at-kept i ss w checked.1 h in
      (kept, (IsChecked-later w (advance_at rt i ss w).1 s kept checked.0, rest), plays)

  -- The service is called by the view alone.
  abbrev pub IsByView : Happening wire rt → Type 0
  IsByView (Happening.came k winner a b is_admin) = ⊥
  IsByView (Happening.served request) = Unit
  IsByView (Happening.asked user pk request) = Unit
  IsByView (Happening.continued i) = Unit

  abbrev IsSafe : System → Type 0
  IsSafe s = All (IsChecked s.world) s.reports × AllWinnersPlay s.world

  happen-IsSafe :
      (e : Happening wire rt) (s : System) → IsByView e → IsSafe s → IsSafe (happen wire rt e s)
  unfolding happen
  happen-IsSafe (Happening.came k winner a b is_admin) s by h = absurd by
  happen-IsSafe (Happening.served request) s by h = (
    All-later s.world (perform wire rt request s.world) s.reports
        (λ k a b. perform-Keeps wire rt (writes-HasTeams k a b wire rt) request s.world) h.0,
    perform-Keeps wire rt (writes-AllWinnersPlay wire rt) request s.world h.1,
  )
  happen-IsSafe (Happening.asked user pk request) s by h =
      (All-append s.world s.reports _ h.0 (view_report-IsChecked user pk request s.world), h.1)
  happen-IsSafe (Happening.continued i) s by h =
      let (_, checked, plays) = advance_at-kept i s.reports s.world h.0 h.1 in (checked, plays)

  run-IsSafe :
      (es : List (Happening wire rt)) (s : System)
      → All IsByView es
      → IsSafe s
      → IsSafe (run wire rt es s)
  unfolding run
  run-IsSafe [] s by h = h
  run-IsSafe (e ∷ es) s by h = run-IsSafe es (happen wire rt e s) by.1 (happen-IsSafe e s by.0 h)

-- However the statements of reports come between one another and between other requests and events,
-- and wherever a report stops: as long as the service is called by the view alone, a match that has
-- a winner at all has one of its two teams as the winner, if this was so at the start, with no
-- report under way. No row that is saved late undoes what the view has checked.
pub run-AllWinnersPlay :
    (wire : Wire) (rt : Runtime) (es : List (Happening wire rt)) (w : World)
    → All (IsByView wire rt) es
    → AllWinnersPlay w
    → AllWinnersPlay (run wire rt es (record { world = w; reports = [] })).world
run-AllWinnersPlay wire rt es w by h =
    (run-IsSafe wire rt es (record { world = w; reports = [] }) by (tt, h)).1
