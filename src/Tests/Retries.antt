-- ===== src/Tests/Retries.antt =====
-- The ranking consumer at a match whose loser has a rating that the Elo formula cannot take.
use tournament_platform_sdd.Base.{◌-ℤ◌, ◌+ℤ◌, ◌*ℤ◌, ℤ, pos, negsuc, ◌≡◌, refl, List, [], ◌∷◌}
use tournament_platform_sdd.Exec.{err, overflow_error}
use tournament_platform_sdd.Json.{num, obj, end, field, subscript}
use tournament_platform_sdd.Models.{World, User}
use tournament_platform_sdd.Models.Tables.{save_user_elo}
use tournament_platform_sdd.Floats.Thousandths.{thousandths}
use tournament_platform_sdd.Rating.{expected_score, update_elo}
use tournament_platform_sdd.Events.Consumer.{Message}
use tournament_platform_sdd.Teams.Service.{loser_id}
use tournament_platform_sdd.Tournaments.UserRating.{
  joined_users, members_of, bulk_create, for_members, rate_winner, rate_loser, update_team_elo,
  update_team_elo_by_match_id,
}
use tournament_platform_sdd.Consumers.Handlers.{payload_of, rank_match_finished}
use tournament_platform_sdd.Consumers.Failure.{IsButUsers, rank_match_finished_failure}
use tournament_platform_sdd.Tests.Fixtures.{ann, bob, platform, plain}

abbrev odd_platform : World
odd_platform = record platform { users = record ann { elo = negsuc 199999 } ∷ bob ∷ [] }

abbrev opener_finished : Message plain
opener_finished = record {
  topic = "match.finished";
  value = obj (field "match_id" (num (pos 32)) end);
}

abbrev attempted : World
attempted = (rank_match_finished plain thousandths opener_finished odd_platform).1

attempt_raises :
    (rank_match_finished plain thousandths opener_finished odd_platform).0 ≡ err overflow_error
unfolding rank_match_finished payload_of subscript update_team_elo_by_match_id update_team_elo
    for_members rate_winner rate_loser members_of joined_users save_user_elo update_elo
    expected_score thousandths loser_id bulk_create ◌-ℤ◌ ◌+ℤ◌ ◌*ℤ◌
attempt_raises = refl

abbrev ratings : List User → List ℤ
ratings [] = []
ratings (u ∷ us) = u.elo ∷ ratings us

-- Bob has won once, and is rated at each attempt.
rated_twice :
    (ratings attempted.users ≡ negsuc 199999 ∷ pos 1016 ∷ [])
    × (ratings (rank_match_finished plain thousandths opener_finished attempted).1.users
        ≡ negsuc 199999 ∷ pos 1019 ∷ [])
unfolding rank_match_finished payload_of subscript update_team_elo_by_match_id update_team_elo
    for_members rate_winner rate_loser members_of joined_users save_user_elo update_elo
    expected_score thousandths loser_id bulk_create ◌-ℤ◌ ◌+ℤ◌ ◌*ℤ◌
rated_twice = (refl, refl)

rank_match_finished_failure_example :
    IsButUsers odd_platform attempted
    × (rank_match_finished plain thousandths opener_finished attempted
        ≡ update_team_elo_by_match_id thousandths 32 attempted)
unfolding subscript
rank_match_finished_failure_example =
    rank_match_finished_failure plain thousandths opener_finished
      (obj (field "match_id" (num (pos 32)) end)) 32 odd_platform refl refl attempt_raises
