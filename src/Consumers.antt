-- ===== src/Consumers.antt =====
-- django-api/app/consumers: the handlers of the three consumer processes.
pub mod Handlers
pub mod Idempotent
pub mod Ranking
pub mod Pipeline
pub mod Failure
use tournament_platform_sdd.Base.{String, List, [], ◌∷◌}

-- `TOPICS` of log_consumer.py.
abbrev pub log_topics : List String
log_topics = "match.finished" ∷ "tournament.created" ∷ "user.registered" ∷ "team.created" ∷ []
