-- ===== src/Delivery/Failure/Tests.antt =====
-- Failed deliveries of a concrete event.
use webhook_backend.Prelude.{refl, some, [], ◌∷◌}
use webhook_backend.Delivery.Documents.{WebhookEvent}
use webhook_backend.Delivery.World.{World}
use webhook_backend.Delivery.Samples.{env, endpoint, event, world}
use webhook_backend.Delivery.Failure.{Failure}
use webhook_backend.Delivery.Failure.Attempts.{HasAttempts, fail_times, fail_times_ends}

abbrev err : Failure
err = record { status_code = some 500; latency_ms = 30 }

-- The event before its fifth attempt.
abbrev late : WebhookEvent
late = record event { retry_count = 4 }

abbrev late_world : World
late_world = record world { events = (3, late) ∷ [] }

fail_times_ends_example : HasAttempts 3 endpoint 5 (fail_times env 9 3 endpoint err 5 world)
fail_times_ends_example = fail_times_ends env 9 3 endpoint err 4 world {e = event} refl
