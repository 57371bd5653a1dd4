-- ===== src/Tests.antt =====
-- Examples: a small platform, and each theorem of the development at a concrete input.
mod Fixtures
mod Ratings
mod Processes
mod Requests
mod Accounts
mod States
mod Interleavings
mod Seeding
mod Retries
