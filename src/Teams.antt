-- ===== src/Teams.antt =====
-- django-api/app/apps/teams: the rating of teams (services.py).
pub mod Service
pub mod Steps
pub mod Idempotent
pub mod Outcome
pub mod Inversion
