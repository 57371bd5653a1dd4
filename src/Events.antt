-- ===== src/Events.antt =====
-- django-api/app/events/producer.py. The views and services call `publish_event` in
-- `transaction.on_commit`, which runs its callback at once where no transaction is open, and no
-- setting or caller opens one around a request.
pub mod Consumer
pub mod Retry
pub mod Loop
pub mod Contract
use tournament_platform_sdd.Base.{String, ◌∷◌, [], ◌++◌, if◌then◌else◌}
use tournament_platform_sdd.Exec.{Exec, ok}
use tournament_platform_sdd.Json.{Json}
use tournament_platform_sdd.Models.{World}
use tournament_platform_sdd.Runtime.{Runtime}

module _ (rt : Runtime) where
  -- A failure of the broker is caught and logged.
  unfoldable pub publish_event : String → Json → Exec World (Unit {0})
  publish_event topic payload w =
      if rt.accepts topic payload
      then (ok tt, record w { published = w.published ++ (topic, payload) ∷ [] })
      else (ok tt, record w { publish_failures = w.publish_failures ++ (topic, payload) ∷ [] })
