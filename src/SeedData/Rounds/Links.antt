-- ===== src/SeedData/Rounds/Links.antt =====
-- `get_or_create` of members, tournaments, registrations, matches and their history, in two runs of
-- `_seed` (seed_data.py in django-api/app/apps/users/management/commands).
use tournament_platform_sdd.Base.{
  ℕ, ℤ, ◌≡◌, refl, subst, Bool, true, false, ◌==◌, ==_refl, ◌&&◌, Option, String, str_eq_iff, [],
  ◌∷◌, ◌++◌,
}
use tournament_platform_sdd.Exec.{ok, ◌>>◌, pure}
use tournament_platform_sdd.Models.{
  User, Team, TeamMember, Tournament, TournamentStatus, Format, Match, MatchStatus,
}
use tournament_platform_sdd.Views.MatchCreation.{new_match}
use tournament_platform_sdd.SeedData.Create.{
  get_or_create, seed_member, seed_tournament, seed_registration, seed_match, seed_history,
}
use tournament_platform_sdd.SeedData.Found.{Held-append, Held-refl}
use tournament_platform_sdd.SeedData.Lookup.{
  without_passwords, tournament_key, member_key, registration_key, match_key, tournament_key-IsKey,
  member_key-IsKey, registration_key-IsKey, match_key-IsKey, get_or_create-Adds,
  get_or_create-Settles,
}
use tournament_platform_sdd.SeedData.Rounds.{Adding, Again}
use tournament_platform_sdd.SeedData.Rounds.Rows.{row-inserted, row-Adding, row-Again}

module _ (name : String) (status : TournamentStatus) (format : Format)
    (max_teams start_date end_date : ℕ) (owner : User) where
  pub seed_tournament-Adding :
      Adding (seed_tournament name status format max_teams start_date end_date owner)
  unfolding seed_tournament
  seed_tournament-Adding =
      row-Adding (λ w. w.tournaments) (tournament_key name) _ (λ made. made.0)
        λ s new. record {
          users = Held-refl (without_passwords s).users;
          teams = Held-refl s.teams;
          tournaments =
              Held-append tournament_key-IsKey name _ s.tournaments new
                ((str_eq_iff name name).1 refl);
          members = Held-refl s.team_members;
          registrations = Held-refl s.tournament_teams;
          matches = Held-refl s.matches;
        }

  pub seed_tournament-Again :
      (owner' : User)
      → Again
          (λ (x y : Tournament). x ≡ y)
          (seed_tournament name status format max_teams start_date end_date owner)
          (seed_tournament name status format max_teams start_date end_date owner')
  unfolding seed_tournament
  seed_tournament-Again owner' =
      row-Again (λ w. w.tournaments) (tournament_key name) _ (λ made. made.0) _ (λ a b c d e. e)
        (λ s a new h.
          row-inserted (tournament_key name) _ a s.tournaments new ((str_eq_iff name name).1 refl)
            h)
        (λ s t a g h. g.tournaments.at name a h)

both_equal : (a b : ℕ) → (a == a && b == b) ≡ true
both_equal a b = rw (==_refl a, ==_refl b) refl

module _ (user : User) (team : Team) where
  pub seed_member-Adding : Adding (seed_member user team)
  unfolding seed_member
  seed_member-Adding =
      row-Adding (λ w. w.team_members) (member_key (user.id, team.id)) _ (λ made. tt)
        λ s new. record {
          users = Held-refl (without_passwords s).users;
          teams = Held-refl s.teams;
          tournaments = Held-refl s.tournaments;
          members =
              Held-append member_key-IsKey (user.id, team.id) _ s.team_members new
                (both_equal user.id team.id);
          registrations = Held-refl s.tournament_teams;
          matches = Held-refl s.matches;
        }

  -- The second run has the row of the same user.
  pub seed_member-Again :
      (user' : User)
      → user.id ≡ user'.id
      → Again (λ (x y : Unit {0}). x ≡ y) (seed_member user team) (seed_member user' team)
  unfolding seed_member
  seed_member-Again user' same =
      subst
        (λ k.
          Again (λ (x y : Unit {0}). x ≡ y) (seed_member user team)
            (get_or_create (λ w. w.team_members) (member_key (k, team.id))
                (λ w.
                  let row : TeamMember = record {
                    user_id = user'.id;
                    team_id = team.id;
                    joined_at = w.now;
                  } in
                  (ok row, record w { team_members = w.team_members ++ row ∷ [] }))
              >> pure tt))
        same
        (row-Again (λ w. w.team_members) (member_key (user.id, team.id)) _ (λ made. tt) _
          (λ a b c d e. refl)
          (λ s a new h.
            row-inserted (member_key (user.id, team.id)) _ a s.team_members new
              (both_equal user.id team.id) h)
          (λ s t a g h. g.members.at (user.id, team.id) a h))

module _ (tournament : Tournament) (team : Team) where
  pub seed_registration-Adding : Adding (seed_registration tournament team)
  unfolding seed_registration
  seed_registration-Adding =
      row-Adding (λ w. w.tournament_teams) (registration_key (tournament.id, team.id)) _
        (λ made. tt)
        λ s new. record {
          users = Held-refl (without_passwords s).users;
          teams = Held-refl s.teams;
          tournaments = Held-refl s.tournaments;
          members = Held-refl s.team_members;
          registrations =
              Held-append registration_key-IsKey (tournament.id, team.id) _ s.tournament_teams new
                (both_equal tournament.id team.id);
          matches = Held-refl s.matches;
        }

  pub seed_registration-Again :
      Again
        (λ (x y : Unit {0}). x ≡ y)
        (seed_registration tournament team)
        (seed_registration tournament team)
  unfolding seed_registration
  seed_registration-Again =
      row-Again (λ w. w.tournament_teams) (registration_key (tournament.id, team.id)) _ (λ made. tt)
        _ (λ a b c d e. refl)
        (λ s a new h.
          row-inserted (registration_key (tournament.id, team.id)) _ a s.tournament_teams new
            (both_equal tournament.id team.id) h)
        (λ s t a g h. g.registrations.at (tournament.id, team.id) a h)

module _ (tournament_id team_a_id team_b_id : ℕ) (winner : Option ℕ) (score_a score_b : ℤ)
    (status : MatchStatus) (played_at : Option ℕ) where
  key_equal :
      match_key
        (tournament_id, team_a_id, team_b_id)
        (new_match 0 (record {
          tournament_id = tournament_id;
          team_a_id = team_a_id;
          team_b_id = team_b_id;
          winner_team_id = winner;
          score_a = score_a;
          score_b = score_b;
          status = status;
          played_at = played_at;
        }))
      ≡ true
  key_equal = rw (==_refl tournament_id, ==_refl team_a_id, ==_refl team_b_id) refl

  pub seed_match-Adding :
      Adding (seed_match tournament_id team_a_id team_b_id winner score_a score_b status played_at)
  unfolding seed_match
  seed_match-Adding =
      get_or_create-Adds (λ w. w.matches) (match_key (tournament_id, team_a_id, team_b_id)) _
        λ s new. record {
          users = Held-refl (without_passwords s).users;
          teams = Held-refl s.teams;
          tournaments = Held-refl s.tournaments;
          members = Held-refl s.team_members;
          registrations = Held-refl s.tournament_teams;
          matches =
              Held-append match_key-IsKey (tournament_id, team_a_id, team_b_id) _ s.matches new
                key_equal;
        }

  -- The second run creates no match.
  pub seed_match-Again :
      Again
        (λ (x y : Match × Bool). (x.0 ≡ y.0) × (y.1 ≡ false))
        (seed_match tournament_id team_a_id team_b_id winner score_a score_b status played_at)
        (seed_match tournament_id team_a_id team_b_id winner score_a score_b status played_at)
  unfolding seed_match
  seed_match-Again =
      get_or_create-Settles (λ w. w.matches) (match_key (tournament_id, team_a_id, team_b_id)) _
        (λ s a new h. row-inserted _ _ a s.matches new key_equal h) (λ x y. x ≡ y) _
        (λ s t a g h. (a, refl, g.matches.at (tournament_id, team_a_id, team_b_id) a h))

pub seed_history-Adding : (m : Match) (delta : ℤ) (user : User) → Adding (seed_history m delta user)
unfolding seed_history
seed_history-Adding m delta user =
    row-Adding (λ w. w.user_elo_history) (λ h. h.user_id == user.id && h.match_id == m.id) _
      (λ made. tt)
      λ s new. record {
        users = Held-refl (without_passwords s).users;
        teams = Held-refl s.teams;
        tournaments = Held-refl s.tournaments;
        members = Held-refl s.team_members;
        registrations = Held-refl s.tournament_teams;
        matches = Held-refl s.matches;
      }
