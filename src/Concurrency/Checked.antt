-- ===== src/Concurrency/Checked.antt =====
-- What a report under way has checked of its winner, and that it stays true: until the save of the
-- row, whatever comes in between.
use tournament_platform_sdd.Base.{
  ℕ, ℤ, ◌≡◌, refl, subst, Bool, true, not, ◌&&◌, ◌==◌, ◌||◌, [], ◌∷◌, ◌++◌, Bool-cases, inl, inr,
}
use tournament_platform_sdd.Exec.{Result, ok, err}
use tournament_platform_sdd.Exec.Rules.{ok-injective}
use tournament_platform_sdd.Json.{Wire}
use tournament_platform_sdd.Models.{World, Match, is_finished}
use tournament_platform_sdd.Runtime.{Runtime}
use tournament_platform_sdd.Teams.Service.{is_rated}
use tournament_platform_sdd.Tournaments.MatchService.{reported}
use tournament_platform_sdd.Tournaments.Report.{find_match-own}
use tournament_platform_sdd.Platform.Steps.{WinnerPlays}
use tournament_platform_sdd.Platform.Winners.{
  AllWinnersPlay, writes-AllWinnersPlay, save_match-AllWinnersPlay, rate_teams-AllWinnersPlay,
  publish_event-AllWinnersPlay,
}
use tournament_platform_sdd.Concurrency.{
  Stage, fetching, saving, listing_winners, listing_losers, rating_winners, rating_losers,
  recording, checking, rating_teams, publishing, ended, accept, proceed, advance,
}
use tournament_platform_sdd.Concurrency.Teams.{
  HasTeams, save_match-HasTeams, writes-HasTeams, rate_teams-HasTeams, publish_event-HasTeams,
}
use tournament_platform_sdd.Concurrency.Books.{advance-Keeps}

-- What a report under way has checked: the winner that it was given, or the row that it is about to
-- save.
abbrev pub IsChecked : World → Stage → Type 0
IsChecked w (fetching k winner a b is_admin) =
    (x y : ℕ) × HasTeams k x y w × ((winner == x || winner == y) ≡ true)
IsChecked w (saving m) = HasTeams m.id m.team_a_id m.team_b_id w × WinnerPlays m
IsChecked w (listing_winners m) = Unit
IsChecked w (listing_losers m us) = Unit
IsChecked w (rating_winners m us vs rows) = Unit
IsChecked w (rating_losers m us rows) = Unit
IsChecked w (recording m rows) = Unit
IsChecked w (checking m) = Unit
IsChecked w (rating_teams m) = Unit
IsChecked w (publishing m) = Unit
IsChecked w (ended r) = Unit

-- Nothing that was checked is lost where the teams of matches stay.
abbrev pub KeepsTeams : World → World → Type 0
KeepsTeams w v = (k a b : ℕ) → HasTeams k a b w → HasTeams k a b v

pub IsChecked-later : (w v : World) (s : Stage) → KeepsTeams w v → IsChecked w s → IsChecked v s
IsChecked-later w v (fetching k winner a b is_admin) kept (x, y, teams, plays) =
    (x, y, kept k x y teams, plays)
IsChecked-later w v (saving m) kept (teams, plays) =
    (kept m.id m.team_a_id m.team_b_id teams, plays)
IsChecked-later w v (listing_winners m) kept h = tt
IsChecked-later w v (listing_losers m us) kept h = tt
IsChecked-later w v (rating_winners m us vs rows) kept h = tt
IsChecked-later w v (rating_losers m us rows) kept h = tt
IsChecked-later w v (recording m rows) kept h = tt
IsChecked-later w v (checking m) kept h = tt
IsChecked-later w v (rating_teams m) kept h = tt
IsChecked-later w v (publishing m) kept h = tt
IsChecked-later w v (ended r) kept h = tt

proceed-IsChecked :
    {A : Type 0} (x : Result A × World) (next : A → Stage)
    → ((a : A) → x.0 ≡ ok a → IsChecked x.1 (next a))
    → IsChecked (proceed x next).1 (proceed x next).0
proceed-IsChecked (ok a, w) next h = h a refl
proceed-IsChecked (err e, w) next h = tt

-- The service reads the match that the view has read.
accept-IsChecked :
    (k winner : ℕ) (a b : ℤ) (is_admin : Bool) (w : World) (r : Match)
    → IsChecked w (fetching k winner a b is_admin)
    → (accept k winner a b is_admin w).0 ≡ ok r
    → IsChecked (accept k winner a b is_admin w).1 (saving r)
unfolding accept
accept-IsChecked k winner a b is_admin w r (x, y, (m, found, ea, eb), plays) h =
    elim (Bool-cases (is_finished m.status && not is_admin)) [
      | inl refused ↦ cc (rw (found, refused) at h)
      | inr open_ ↦
          let same : reported m winner a b w.now ≡ r = ok-injective (rw (found, open_) at h) in
          rw (found, open_)
            (subst (λ n. HasTeams n.id n.team_a_id n.team_b_id w × WinnerPlays n) same
              ((m, find_match-own k w.matches found, refl, refl), rw (ea, eb) plays))
    ]

module _ (wire : Wire) (rt : Runtime) where
  pub advance-IsChecked :
      (s : Stage) (w : World) → IsChecked w s → IsChecked (advance rt s w).1 (advance rt s w).0
  unfolding advance
  advance-IsChecked (fetching k winner a b is_admin) w h =
      proceed-IsChecked _ saving (λ r e. accept-IsChecked k winner a b is_admin w r h e)
  advance-IsChecked (saving m) w h = proceed-IsChecked _ (λ _. listing_winners m) (λ a e. tt)
  advance-IsChecked (listing_winners m) w h = tt
  advance-IsChecked (listing_losers m us) w h = tt
  advance-IsChecked (rating_winners m [] vs rows) w h = tt
  advance-IsChecked (rating_winners m (u ∷ us) vs rows) w h =
      proceed-IsChecked _ (λ row. rating_winners m us vs (rows ++ row ∷ [])) (λ a e. tt)
  advance-IsChecked (rating_losers m [] rows) w h = tt
  advance-IsChecked (rating_losers m (u ∷ us) rows) w h =
      proceed-IsChecked _ (λ row. rating_losers m us (rows ++ row ∷ [])) (λ a e. tt)
  advance-IsChecked (recording m rows) w h = proceed-IsChecked _ (λ _. checking m) (λ a e. tt)
  advance-IsChecked (checking m) w h = elim (Bool-cases (is_rated m.id w)) [
    | inl rated ↦ rw rated tt
    | inr new ↦ rw new tt
  ]
  advance-IsChecked (rating_teams m) w h = proceed-IsChecked _ (λ _. publishing m) (λ a e. tt)
  advance-IsChecked (publishing m) w h = proceed-IsChecked _ (λ _. ended (ok m)) (λ a e. tt)
  advance-IsChecked (ended r) w h = tt

  pub advance-KeepsTeams : (s : Stage) (w : World) → IsChecked w s → KeepsTeams w (advance rt s w).1
  advance-KeepsTeams s w checked k a b h =
      advance-Keeps wire rt (writes-HasTeams k a b wire rt) (rate_teams-HasTeams k a b rt.floats)
        (publish_event-HasTeams k a b rt) s w
        (λ m e.
          let (teams, _) = subst (IsChecked w) e checked in save_match-HasTeams k a b m w teams h)
        h

  pub advance-AllWinnersPlay :
      (s : Stage) (w : World) → IsChecked w s → AllWinnersPlay w → AllWinnersPlay (advance rt s w).1
  advance-AllWinnersPlay s w checked h =
      advance-Keeps wire rt (writes-AllWinnersPlay wire rt) (rate_teams-AllWinnersPlay rt.floats)
        (publish_event-AllWinnersPlay rt) s w
        (λ m e.
          let (_, plays) = subst (IsChecked w) e checked in
          (save_match-AllWinnersPlay m plays).at w h)
        h
