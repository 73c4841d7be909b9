-- ===== src/Delivery/Worker.antt =====
-- The periodic jobs of delivery/retry-worker.service.ts, and `replay`, `cleanExpiredEvents` and the
-- table of local breakers of delivery/delivery.service.ts.
pub mod Laws
mod Tests
use webhook_backend.Prelude.{
  ℕ, suc, zero, ◌+◌, ◌-◌, ◌*◌, Bool, true, false, ◌&&◌, ◌||◌, not, Option, some, none, List, [],
  ◌∷◌, length, take, Collection, find_by_id, update_by_id, update_many, delete_many, find_many,
  count_documents, if◌then◌else◌, ltb, leb, ◌==◌, Result, ok, err, Exception, Action, any, ◌++◌,
}
use webhook_backend.Delivery.Documents.{
  WebhookEvent, EventStatus, is_status, pending, retrying, failed, rate_queued, dead, ttl_exceeded,
  Job, JobId,
}
use webhook_backend.Delivery.World.{World, Env}

abbrev pub before : Option ℕ → (ℕ → Bool) → Bool
before none p = false
before (some at) p = p at

-- The filter of `rescheduleFailedEvents`.
abbrev pub is_due_event : ℕ → WebhookEvent → Bool
is_due_event now e =
    (is_status e.status failed || is_status e.status rate_queued)
    && before e.next_retry_at (λ at. leb at now)

-- `find(filter).limit(100)`
abbrev pub due_events : ℕ → Collection WebhookEvent → Collection WebhookEvent
due_events now events = take 100 (find_many (is_due_event now) events)

-- The loop of `rescheduleFailedEvents`; `clock` is what `Date.now()` reads for each event.
pub reschedule_all : Env → (clock : ℕ → ℕ) → Collection WebhookEvent → List Job → List Job
reschedule_all env clock [] jobs = jobs
reschedule_all env clock ((id, e) ∷ events) jobs =
    reschedule_all env clock events
      (env.add_job (record { id = JobId.reschedule id (clock id); event_id = id; delay = 0 }) jobs)

-- `rescheduleFailedEvents`
pub reschedule_failed_events : Env → ℕ → (clock : ℕ → ℕ) → World → World
unfolding reschedule_all
reschedule_failed_events env now clock w = record w {
  jobs = reschedule_all env clock (due_events now w.events) w.jobs;
}

-- `updateDlqMetrics`: the size that the gauge is set to.
pub update_dlq_metrics : World → ℕ
update_dlq_metrics w = count_documents (λ e. is_status e.status dead) w.events

-- `alertOnHighDlq`: the count that is alerted on, if it is high.
pub alert_on_high_dlq : World → Option ℕ
unfolding update_dlq_metrics
alert_on_high_dlq w = if ltb 100 (update_dlq_metrics w) then some (update_dlq_metrics w) else none

-- The filter of `purgeOldDlqEvents`.
abbrev pub is_old_dead : ℕ → WebhookEvent → Bool
is_old_dead cutoff e = is_status e.status dead && before e.dead_at (λ at. ltb at cutoff)

-- `purgeOldDlqEvents`; a retention longer than the time since 1970 keeps everything.
pub purge_old_dlq_events : (retention_days now : ℕ) → World → World
purge_old_dlq_events retention_days now w = record w {
  events = delete_many (is_old_dead (now - retention_days * 86_400_000)) w.events;
}

-- `backlogGuardrail`: whether an alert is sent.
pub backlog_guardrail : (waiting threshold : ℕ) → Bool
backlog_guardrail waiting threshold = leb threshold waiting

-- `replay`
pub replay : Env → ℕ → ℕ → Action World (Unit {0})
replay env now event_id w = elim (find_by_id event_id w.events) [
  | none ↦ (err Exception.not_found, w)
  | some event ↦ (
    ok tt,
    record w {
      events =
          update_by_id event_id
            (λ e. record e {
              status = pending;
              retry_count = 0;
              next_retry_at = none;
              last_error = none;
            })
            w.events;
      jobs =
          env.add_job (record { id = JobId.replay event_id now; event_id = event_id; delay = 0 })
            w.jobs;
    },
  )
]

-- The filter of `cleanExpiredEvents`.
abbrev pub is_expired_event : ℕ → WebhookEvent → Bool
is_expired_event now e =
    before e.expires_at (λ at. ltb at now)
    && (is_status e.status pending || is_status e.status retrying)

abbrev pub expire_event : ℕ → WebhookEvent → WebhookEvent
expire_event now e = record e { status = dead; dead_at = some now; last_error = some ttl_exceeded }

-- The loop of `cleanExpiredEvents`, over the events that it found.
pub expire_each : ℕ → Collection WebhookEvent → Collection WebhookEvent → Collection WebhookEvent
expire_each now [] events = events
expire_each now ((id, e) ∷ expired) events =
    expire_each now expired (update_by_id id (expire_event now) events)

-- `cleanExpiredEvents`
pub clean_expired_events : ℕ → World → World
unfolding expire_each
clean_expired_events now w = record w {
  events = expire_each now (find_many (is_expired_event now) w.events) w.events;
}

-- MAX_BREAKERS
abbrev pub max_breakers : ℕ
max_breakers = 1000

-- The first loop of `getBreaker`: the first closed breaker goes. The table holds, in order of
-- insertion, whether each endpoint's breaker is closed.
abbrev pub drop_first_closed : Collection Bool → Collection Bool
drop_first_closed [] = []
drop_first_closed ((id, closed) ∷ breakers) =
    if closed then breakers else (id, closed) ∷ drop_first_closed breakers

abbrev pub drop_first : Collection Bool → Collection Bool
drop_first [] = []
drop_first (b ∷ breakers) = breakers

abbrev pub make_room : Collection Bool → Collection Bool
make_room breakers =
    if leb max_breakers (length breakers)
    then (if leb max_breakers (length (drop_first_closed breakers))
        then drop_first (drop_first_closed breakers)
        else drop_first_closed breakers)
    else breakers

-- The table after `getBreaker`; a new breaker starts closed.
pub get_breaker : ℕ → Collection Bool → Collection Bool
get_breaker endpoint_id breakers = elim (find_by_id endpoint_id breakers) [
  | some b ↦ breakers
  | none ↦ make_room breakers ++ (endpoint_id, true) ∷ []
]
