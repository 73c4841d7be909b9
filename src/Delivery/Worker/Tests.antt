-- ===== src/Delivery/Worker/Tests.antt =====
-- The periodic jobs on concrete worlds.
use webhook_backend.Prelude.{◌≡◌, refl, some, [], ◌∷◌}
use webhook_backend.Delivery.Documents.{retrying, rate_queued, JobId}
use webhook_backend.Delivery.World.{World}
use webhook_backend.Delivery.Samples.{env, event, world}
use webhook_backend.Delivery.Worker.{reschedule_failed_events, reschedule_all}

-- Event 3 is retrying, event 4 waits for its rate limit.
abbrev waiting : World
waiting = record world {
  events =
      (3, record event { status = retrying; next_retry_at = some 5 })
      ∷ (4, record event { status = rate_queued; next_retry_at = some 5 })
      ∷ [];
}

-- The other event is queued.
reschedules_the_other :
    (reschedule_failed_events env 9 (λ id. 9) waiting).jobs
    ≡ (record { id = JobId.reschedule 4 9; event_id = 4; delay = 0 }) ∷ []
unfolding reschedule_failed_events reschedule_all
reschedules_the_other = refl
