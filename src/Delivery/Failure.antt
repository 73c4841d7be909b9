-- ===== src/Delivery/Failure.antt =====
-- `handleDeliveryFailure` and `scheduleRetry` of delivery/delivery.service.ts. The method works on
-- the event and the endpoint as `deliver` read them; `now` is the time of the failure.
pub mod Laws
pub mod Attempts
mod Tests
use webhook_backend.Prelude.{
  ℕ, ◌+◌, Bool, true, false, Option, some, none, List, [], ◌∷◌, Collection, find_by_id,
  update_by_id, upsert_by_id, or_default, if◌then◌else◌, leb, ◌==◌,
}
use webhook_backend.Delivery.Documents.{
  WebhookEvent, Endpoint, DeliveryLog, Job, JobId, EventStatus, dead, retrying, LastError,
  delivery_error,
}
use webhook_backend.Delivery.Retry.{
  max_retry_attempts, get_retry_delay, get_next_retry_at_for_strategy,
}
use webhook_backend.Delivery.Breaker.{record_failure, no_keys}
use webhook_backend.Delivery.World.{
  endpoint_id_of, World, Env, Metric, failed_metric, dead_metric, breaker_keys,
}

-- `a || b` at a number.
abbrev pub or_number : ℕ → ℕ → ℕ
or_number a b = if a == 0 then b else a

-- `scheduleRetry`, at a retry count: past the table nothing is queued.
pub schedule_retry : Env → ℕ → ℕ → World → World
schedule_retry env event_id count w = elim (get_retry_delay count) [
  | none ↦ w
  | some delay ↦ record w {
    jobs =
        env.add_job (record { id = JobId.retry event_id count; event_id = event_id; delay = delay })
          w.jobs;
  }
]

pub record Failure : Type 0 where
  pub status_code : Option ℕ
  pub latency_ms : ℕ

-- `{ $inc: { failureCount: 1, totalFailed: 1 }, lastFailureAt }`
abbrev pub count_failure : ℕ → Endpoint → Endpoint
count_failure now ep = record ep {
  failure_count = ep.failure_count + 1;
  total_failed = ep.total_failed + 1;
  last_failure_at = some now;
}

-- The log row, the endpoint's counters, the shared breaker and the metric, which every failure
-- writes.
pub record_delivery_failure : Env → ℕ → ℕ → WebhookEvent → Failure → World → World
record_delivery_failure env now event_id event err w = record w {
  logs =
      (record {
        event_id = event_id;
        endpoint_id = endpoint_id_of env event;
        attempt = event.retry_count + 1;
        success = false;
        status_code = err.status_code;
        latency_ms = err.latency_ms;
        attempted_at = now;
      })
      ∷ w.logs;
  endpoints = update_by_id (endpoint_id_of env event) (count_failure now) w.endpoints;
  breakers =
      upsert_by_id (endpoint_id_of env event)
        (λ k. (record_failure env.breaker env.redis_up now k).1) no_keys w.breakers;
  metrics = failed_metric (endpoint_id_of env event) ∷ w.metrics;
}

-- `endpoint.maxRetries || MAX_RETRY_ATTEMPTS`
abbrev pub max_retries_of : Endpoint → ℕ
max_retries_of ep = or_number ep.max_retries max_retry_attempts

-- The update of an event that has used up its retries ...
abbrev pub mark_dead : ℕ → ℕ → Failure → WebhookEvent → WebhookEvent
mark_dead now retry_count err e = record e {
  status = dead;
  retry_count = retry_count;
  last_attempt_at = some now;
  dead_at = some now;
  last_error = some (delivery_error err.status_code);
}

-- ... and of one that is to be tried again.
abbrev pub mark_retrying : ℕ → ℕ → ℕ → Failure → WebhookEvent → WebhookEvent
mark_retrying now retry_count next_retry_at err e = record e {
  status = retrying;
  retry_count = retry_count;
  last_attempt_at = some now;
  next_retry_at = some next_retry_at;
  last_error = some (delivery_error err.status_code);
}

-- `handleDeliveryFailure`
pub handle_delivery_failure : Env → ℕ → ℕ → WebhookEvent → Endpoint → Failure → World → World
unfolding record_delivery_failure schedule_retry
handle_delivery_failure env now event_id event ep err w =
    let n = event.retry_count + 1 in
    let w' = record_delivery_failure env now event_id event err w in
    if leb (max_retries_of ep) n
    then record w' {
      events = update_by_id event_id (mark_dead now n err) w'.events;
      dead_letters = (event_id, endpoint_id_of env event) ∷ w'.dead_letters;
      metrics = dead_metric (endpoint_id_of env event) ∷ w'.metrics;
    }
    else let at =
        get_next_retry_at_for_strategy now ep.retry_strategy n
          (or_number ep.retry_fixed_delay_seconds 60) in
      schedule_retry env event_id n
        (record w' { events = update_by_id event_id (mark_retrying now n at err) w'.events })
