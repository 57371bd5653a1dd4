-- ===== src/Views.antt =====
-- The request handlers of django-api/app: the views of apps/tournaments, apps/teams and apps/users,
-- and middleware/jwt_auth.py.
pub mod Access
pub mod Matches
pub mod MatchTable
pub mod Answers
pub mod Jwt
pub mod Trust
pub mod Twins
pub mod Tournaments
pub mod Teams
pub mod Visible
pub mod Creation
pub mod MatchCreation
pub mod Rankings
pub mod RankingTable
pub mod TournamentRanking
pub mod Authentication
pub mod Stack
pub mod Users
pub mod Throttled
pub mod Filters
pub mod TeamList
