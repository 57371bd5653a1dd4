-- ===== src/Tournaments.antt =====
-- django-api/app/apps/tournaments/services.py: the results of matches, and the start of tournaments.
pub mod UserRating
pub mod MatchService
pub mod TournamentService
pub mod Rounds
pub mod Frames
pub mod Players
pub mod Lifecycle
pub mod Report
pub mod Failure
