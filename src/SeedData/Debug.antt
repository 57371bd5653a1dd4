-- ===== src/SeedData/Debug.antt =====
-- The option `--clear` of the command `seed_data`.
use tournament_platform_sdd.Base.{
  ℕ, ◌≡◌, refl, ◌==◌, Bool, true, false, not, String, List, [], ◌∷◌, any, filter, All,
}
use tournament_platform_sdd.Exec.{ok, err, system_exit}
use tournament_platform_sdd.Models.{World, Match}
use tournament_platform_sdd.SeedData.Clear.{
  delete_matches, delete_tournaments, delete_teams, delete_users, clear,
}
use tournament_platform_sdd.SeedData.{seed, handle}

-- The state with the core tables empty, and what names their rows.
abbrev pub emptied : World → World
emptied w = record w {
  users = [];
  teams = [];
  team_members = [];
  tournaments = [];
  tournament_teams = [];
  matches = [];
  user_elo_history = [];
  team_elo_history = [];
  notification_log = [];
}

-- The foreign key of each row names a match of the table.
abbrev pub NameMatches : {A : Type 0} → (A → ℕ) → List A → List Match → Type 0
NameMatches match_id rows ms = All (λ x. any (λ m. m.id == match_id x) ms ≡ true) rows

filter_none :
    {A : Type 0} (p : A → Bool) (xs : List A)
    → All (λ x. p x ≡ true) xs
    → filter (λ x. not (p x)) xs ≡ []
filter_none p [] all = refl
filter_none p (x ∷ xs) all = rw all.0 (filter_none p xs all.1)

module _ (w : World) (history : NameMatches (λ h. h.match_id) w.team_elo_history w.matches)
    (notifications : NameMatches (λ n. n.match_id) w.notification_log w.matches) where
  clear_lem : clear w ≡ (ok tt, emptied w)
  unfolding clear delete_matches delete_tournaments delete_teams delete_users
  clear_lem =
      rw (filter_none _ w.team_elo_history history, filter_none _ w.notification_log notifications)
        refl

  -- `seed_data --clear` is refused outside DEBUG mode and changes nothing. In DEBUG mode no protected
  -- foreign key stops it, and where those of the history and of the notifications name matches, it
  -- seeds a state in which every core table is empty, and all else is as it was.
  pub handle_clear :
      (make_password : ℕ → String → String)
      → (handle make_password true false w ≡ (err system_exit, w))
        × (handle make_password true true w ≡ seed make_password (emptied w))
  unfolding handle
  handle_clear make_password = (refl, rw clear_lem refl)
