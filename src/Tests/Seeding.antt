-- ===== src/Tests/Seeding.antt =====
-- The command seed_data on an empty database, once and again.
use tournament_platform_sdd.Base.{ℕ, ◌≡◌, refl, String, count_where, true, false}
use tournament_platform_sdd.Exec.{ok}
use tournament_platform_sdd.Models.{World}
use tournament_platform_sdd.Tournaments.UserRating.{joined_users, members_of}
use tournament_platform_sdd.Views.Teams.{insert_team, insert_user}
use tournament_platform_sdd.SeedData.Create.{
  for_each, pick, deal, one_or_create, create_seed_user, seed_user, seed_team, seed_member,
  seed_tournament, seed_registration, seed_match, seed_history,
}
use tournament_platform_sdd.SeedData.{
  seed_match_history, seed_finished_match, seed_scheduled_match, seed_matches, seed_tournaments,
  seed_registrations, seed_users, seed, handle,
}
use tournament_platform_sdd.SeedData.Debug.{emptied}
use tournament_platform_sdd.SeedData.Lookup.{without_passwords}
use tournament_platform_sdd.SeedData.Again.{handle_again}
use tournament_platform_sdd.Tests.Fixtures.{platform}

abbrev same_text : ℕ → String → String
same_text k text = text

abbrev other_text : ℕ → String → String
other_text k text = "another hash"

abbrev seeded : World
seeded = (seed same_text (emptied platform)).1

-- The command returns on an empty database, however passwords are hashed.
seeded_returns :
    (make_password : ℕ → String → String)
    → (handle make_password false false (emptied platform)).0 ≡ ok tt
unfolding handle seed seed_users seed_registrations seed_tournaments seed_matches
    seed_scheduled_match seed_finished_match seed_match_history seed_history seed_match
    seed_registration seed_tournament seed_member seed_team seed_user create_seed_user one_or_create
    deal pick for_each insert_team insert_user members_of joined_users
seeded_returns make_password = refl

-- Twelve matches, and the rows of history of the players of the five that are over.
seeded_rows :
    (count_where (λ m. true) seeded.matches ≡ 12)
    × (count_where (λ h. true) seeded.user_elo_history ≡ 30)
unfolding seed seed_users seed_registrations seed_tournaments seed_matches seed_scheduled_match
    seed_finished_match seed_match_history seed_history seed_match seed_registration seed_tournament
    seed_member seed_team seed_user create_seed_user one_or_create deal pick for_each insert_team
    insert_user members_of joined_users
seeded_rows = (refl, refl)

-- The second run hashes passwords in another way.
handle_again_example :
    let seeded = (handle same_text false false (emptied platform)).1 in
    let again = handle other_text false false seeded in
    (again.0 ≡ ok tt) × (without_passwords again.1 ≡ without_passwords seeded)
handle_again_example =
    handle_again same_text other_text false false (emptied platform) (seeded_returns same_text)
