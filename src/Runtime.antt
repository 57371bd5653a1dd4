-- ===== src/Runtime.antt =====
-- What the operations use of their surroundings: Python's floats, the text of a date, and the
-- Kafka broker. `accepts topic payload` is false where `produce` or `flush` raises.
use tournament_platform_sdd.Base.{ℕ, Bool, String}
use tournament_platform_sdd.Json.{Json}
use tournament_platform_sdd.Floats.{PyFloat}

pub record Runtime : Type 1 where
  pub floats : PyFloat
  pub isoformat : ℕ → String
  pub accepts : String → Json → Bool
