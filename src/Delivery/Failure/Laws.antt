-- ===== src/Delivery/Failure/Laws.antt =====
-- What a failed delivery leaves behind.
use webhook_backend.Prelude.{
  ℕ, ◌+◌, ◌≤◌, ◌<◌, ◌≡◌, ◌≢◌, false, some, ◌∷◌, find_by_id, find_by_id-update,
  find_by_id-update_self, find_by_id-update_ne, arith,
}
use webhook_backend.Delivery.Documents.{WebhookEvent, Endpoint, JobId}
use webhook_backend.Delivery.Retry.{
  max_retry_attempts, get_retry_delay, get_next_retry_at_for_strategy,
}
use webhook_backend.Delivery.World.{endpoint_id_of, World, Env}
use webhook_backend.Delivery.Failure.{
  handle_delivery_failure, schedule_retry, Failure, mark_dead, mark_retrying, max_retries_of,
  or_number, count_failure,
}

-- `scheduleRetry` makes no request.
pub schedule-requests :
    (env : Env) (event_id count : ℕ) (w : World)
    → (schedule_retry env event_id count w).requests ≡ w.requests
unfolding schedule_retry
schedule-requests env event_id count w = ground arith

module _ (env : Env) (now event_id : ℕ) (event : WebhookEvent) (ep : Endpoint) (err : Failure)
    (w : World) where
  abbrev after : World
  after = handle_delivery_failure env now event_id event ep err w

  -- A failure that uses up the endpoint's retries makes the event dead, hands it to the dead-letter
  -- queue and queues no further delivery.
  pub failure_exhausts :
      {old : WebhookEvent}
      → find_by_id event_id w.events ≡ some old
      → max_retries_of ep ≤ event.retry_count + 1
      → (find_by_id event_id after.events ≡ some (mark_dead now (event.retry_count + 1) err old))
        × (after.dead_letters ≡ (event_id, endpoint_id_of env event) ∷ w.dead_letters)
        × (after.jobs ≡ w.jobs)
  unfolding handle_delivery_failure
  failure_exhausts found used = (
    ground (
      arith,
      find_by_id-update event_id event_id (mark_dead now (event.retry_count + 1) err) w.events,
    ),
    ground arith,
    ground arith,
  )

  pub stored_at : ℕ
  stored_at =
      get_next_retry_at_for_strategy now ep.retry_strategy (event.retry_count + 1)
        (or_number ep.retry_fixed_delay_seconds 60)

  pub retrying-events :
      {old : WebhookEvent}
      → find_by_id event_id w.events ≡ some old
      → event.retry_count + 1 < max_retries_of ep
      → (find_by_id event_id after.events
          ≡ some (mark_retrying now (event.retry_count + 1) stored_at err old))
        × (after.dead_letters ≡ w.dead_letters)
  unfolding handle_delivery_failure stored_at
  retrying-events found left = (
    ground (
      arith,
      find_by_id-update event_id event_id (mark_retrying now (event.retry_count + 1) stored_at err)
          w.events,
    ),
    ground arith,
  )

  -- A failure with retries left, while the delay table has an entry, leaves the event retrying with
  -- one failed attempt more, and hands the queue one delivery of it after the table's delay. That
  -- delay does not depend on the endpoint's retry strategy, which only sets the stored date.
  pub failure_retries :
      {old : WebhookEvent} {delay : ℕ}
      → find_by_id event_id w.events ≡ some old
      → event.retry_count + 1 < max_retries_of ep
      → get_retry_delay (event.retry_count + 1) ≡ some delay
      → (find_by_id event_id after.events
          ≡ some (
              mark_retrying now
                (event.retry_count + 1)
                (get_next_retry_at_for_strategy now ep.retry_strategy
                  (event.retry_count + 1)
                  (or_number ep.retry_fixed_delay_seconds 60))
                err
                old))
        × (after.jobs
            ≡ env.add_job
                (record {
                  id = JobId.retry event_id (event.retry_count + 1);
                  event_id = event_id;
                  delay = delay;
                })
                w.jobs)
        × (after.dead_letters ≡ w.dead_letters)
  unfolding handle_delivery_failure stored_at
  failure_retries found left table =
      let (stored, same) = retrying-events found left in (stored, ground arith, same)

  -- A failure with retries left beyond the delay table leaves the event retrying and queues
  -- no job.
  pub failure_strands :
      {old : WebhookEvent}
      → find_by_id event_id w.events ≡ some old
      → event.retry_count + 1 < max_retries_of ep
      → max_retry_attempts ≤ event.retry_count + 1
      → (find_by_id event_id after.events
          ≡ some (
              mark_retrying now
                (event.retry_count + 1)
                (get_next_retry_at_for_strategy now ep.retry_strategy
                  (event.retry_count + 1)
                  (or_number ep.retry_fixed_delay_seconds 60))
                err
                old))
        × (after.jobs ≡ w.jobs)
        × (after.dead_letters ≡ w.dead_letters)
  unfolding handle_delivery_failure stored_at get_retry_delay
  failure_strands found left beyond =
      let (stored, same) = retrying-events found left in (stored, ground arith, same)

  -- Every failure writes one log row for the attempt, adds one to the endpoint's two failure
  -- counters and to no other endpoint's, and touches no other event.
  pub failure_counts :
      {old : Endpoint} (other_endpoint other_event : ℕ)
      → find_by_id (endpoint_id_of env event) w.endpoints ≡ some old
      → endpoint_id_of env event ≢ other_endpoint
      → event_id ≢ other_event
      → (find_by_id (endpoint_id_of env event) after.endpoints ≡ some (count_failure now old))
        × (find_by_id other_endpoint after.endpoints ≡ find_by_id other_endpoint w.endpoints)
        × (find_by_id other_event after.events ≡ find_by_id other_event w.events)
        × (after.logs
            ≡ (record {
              event_id = event_id;
              endpoint_id = endpoint_id_of env event;
              attempt = event.retry_count + 1;
              success = false;
              status_code = err.status_code;
              latency_ms = err.latency_ms;
              attempted_at = now;
            })
              ∷ w.logs)
  unfolding handle_delivery_failure stored_at
  failure_counts other_endpoint other_event found ne_endpoint ne_event = (
    ground (
      arith,
      find_by_id-update_self (endpoint_id_of env event) (count_failure now) w.endpoints found,
    ),
    ground (
      arith,
      find_by_id-update_ne (endpoint_id_of env event) other_endpoint (count_failure now) w.endpoints
          ne_endpoint,
    ),
    ground (
      arith,
      find_by_id-update_ne event_id other_event (mark_dead now (event.retry_count + 1) err) w.events
          ne_event,
      find_by_id-update_ne event_id other_event
          (mark_retrying now (event.retry_count + 1) stored_at err) w.events ne_event,
    ),
    ground arith,
  )

  -- A failure makes no request.
  pub failure-requests : after.requests ≡ w.requests
  unfolding handle_delivery_failure stored_at
  failure-requests = ground arith

  -- A failure writes its row.
  pub failure_logs :
      after.logs
      ≡ (record {
        event_id = event_id;
        endpoint_id = endpoint_id_of env event;
        attempt = event.retry_count + 1;
        success = false;
        status_code = err.status_code;
        latency_ms = err.latency_ms;
        attempted_at = now;
      })
        ∷ w.logs
  unfolding handle_delivery_failure stored_at
  failure_logs = ground arith
