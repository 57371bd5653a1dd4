-- ===== src/Concurrency/Race.antt =====
-- Two reports of one match: the guard of `report_result` orders them only if one comes after the
-- other.
use tournament_platform_sdd.Base.{ℕ, ℤ, ◌≡◌, refl, false, some, List, [], ◌∷◌}
use tournament_platform_sdd.Exec.{ok, err, match_already_finished}
use tournament_platform_sdd.Json.{Wire}
use tournament_platform_sdd.Models.{World, Match, is_finished}
use tournament_platform_sdd.Models.Tables.{find_match}
use tournament_platform_sdd.Runtime.{Runtime}
use tournament_platform_sdd.Tournaments.MatchService.{reported, report_result}
use tournament_platform_sdd.Tournaments.Report.{report_result_stored, report_result-refused}
use tournament_platform_sdd.Concurrency.{
  saving, accept, advance, advance_at, Happening, happen, run,
}

accept-open :
    (k p : ℕ) (a b : ℤ) (w : World) (m : Match)
    → find_match k w.matches ≡ some m
    → is_finished m.status ≡ false
    → accept k p a b false w ≡ (ok (reported m p a b w.now), w)
unfolding accept
accept-open k p a b w m found open_ = rw found (rw open_ refl)

module _ (wire : Wire) (rt : Runtime) where
  -- Both reports come in, and then each executes its first statement.
  abbrev pub both_come : ℕ → ℕ → ℤ → ℤ → ℕ → ℤ → ℤ → List (Happening wire rt)
  both_come k p a b q c d =
      Happening.came k p a b false
      ∷ Happening.came k q c d false
      ∷ Happening.continued 0
      ∷ Happening.continued 1
      ∷ []

  both_accepted :
      (k p q : ℕ) (a b c d : ℤ) (w : World) (m : Match)
      → find_match k w.matches ≡ some m
      → is_finished m.status ≡ false
      → run wire rt (both_come k p a b q c d) (record { world = w; reports = [] }) ≡ record {
        world = w;
        reports = saving (reported m p a b w.now) ∷ saving (reported m q c d w.now) ∷ [];
      }
  unfolding run happen advance_at advance
  both_accepted k p q a b c d w m found open_ =
      rw (accept-open k p a b w m found open_, accept-open k q c d w m found open_) refl

  -- Two players report one match that is not finished. If the second comes when the first has
  -- returned, it is refused and changes nothing. If both come at once, the guard lets both through:
  -- each goes on to save the match with its own result, over the other's.
  pub run-both_come :
      (k p q : ℕ) (a b c d : ℤ) (w : World) (m : Match)
      → find_match k w.matches ≡ some m
      → is_finished m.status ≡ false
      → ((m' : Match)
          → (report_result rt k p a b false w).0 ≡ ok m'
          → let w' = (report_result rt k p a b false w).1 in
            report_result rt k q c d false w' ≡ (err match_already_finished, w'))
        × (run wire rt (both_come k p a b q c d) (record { world = w; reports = [] }) ≡ record {
          world = w;
          reports = saving (reported m p a b w.now) ∷ saving (reported m q c d w.now) ∷ [];
        })
  run-both_come k p q a b c d w m found open_ = (
    λ m' done.
        let w' = (report_result rt k p a b false w).1 in
        let (same, stored, _) = report_result_stored rt k p a b false w m m' found done in
        report_result-refused rt k q c d false w' m' stored (rw same refl),
    both_accepted k p q a b c d w m found open_,
  )
