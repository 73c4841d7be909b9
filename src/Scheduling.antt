-- ===== src/Scheduling.antt =====
-- src/modules/scheduling/scheduling.service.ts: events that wait for their time, over the store of
-- Events. A due event that fails in the `try` of `dispatchDueEvents` keeps what was written before.
pub mod Dispatch
pub mod Settled
pub mod Runs
mod Tests
use Prim.Native.String.{String}
use text.Mathlib.Text.{◌==◌ as str_eq}
use webhook_backend.Prelude.{
  ℕ, ◌+◌, ◌-◌, Bool, true, false, not, ◌&&◌, ◌||◌, Option, some, none, List, [], ◌∷◌, take,
  Collection, find_by_id, update_by_id, find_many, nullish_or, leb, ltb, ◌==◌, if◌then◌else◌,
  Result, ok, err, Exception, Action, throw_if, or_throw, gets, modify, pure, ◌>>=◌, ◌>>◌,
}
use webhook_backend.Filters.{Json}
use webhook_backend.PayloadCrypto.{text_or}
use webhook_backend.Delivery.Documents.{EventStatus, EndpointStatus, active}
use webhook_backend.Events.{
  StoredEvent, StoredEndpoint, DeliverJob, ScheduledEventStatus, pending, queued, delivered,
  cancelled, failed, expired, ScheduledEvent, Store, Outside, add_job, create_event,
}
use webhook_backend.Events.Sending.{bull_priority, scrubbed, sealed_payload}

abbrev pub is_pending : ScheduledEventStatus → Bool
is_pending pending = true
is_pending _ = false

abbrev pub is_cancelled : ScheduledEventStatus → Bool
is_cancelled cancelled = true
is_cancelled _ = false

pub record ScheduleDto : Type 0 where
  pub endpoint_id : ℕ
  pub event_type : String
  pub payload : Json
  pub scheduled_for : ℕ
  pub priority : Option String
  pub idempotency_key : Option String

-- What `schedule` answers.
pub data Scheduled : Type 0 where
  created : (id : ℕ) → Scheduled
  duplicate : (id : ℕ) → ScheduledEventStatus → Scheduled

abbrev pub max_schedule_window_ms : ℕ
max_schedule_window_ms = 2_592_000_000

abbrev pub endpoint_of_project : ℕ → Option StoredEndpoint → Option StoredEndpoint
endpoint_of_project project none = none
endpoint_of_project project (some e) = if e.project_id == project then some e else none

abbrev pub text_or_null : Option String → Option String
text_or_null none = none
text_or_null (some t) = if str_eq t "" then none else some t

abbrev pub has_scheduled_key : (project endpoint : ℕ) → (key : String) → ScheduledEvent → Bool
has_scheduled_key project endpoint key e =
    e.project_id == project
    && e.endpoint_id == endpoint
    && str_eq (nullish_or e.idempotency_key "") key
    && not (is_cancelled e.status)

abbrev pub find_scheduled :
    (ScheduledEvent → Bool) → Collection ScheduledEvent → Option (ℕ × ScheduledEvent)
find_scheduled p [] = none
find_scheduled p ((id, e) ∷ c) = if p e then some (id, e) else find_scheduled p c

-- `if (dto.idempotencyKey)` and the query behind it
abbrev pub find_existing :
    (project : ℕ) → ScheduleDto → Collection ScheduledEvent → Option (ℕ × ScheduledEvent)
find_existing project dto c =
    if str_eq (nullish_or dto.idempotency_key "") ""
    then none
    else find_scheduled
        (has_scheduled_key project dto.endpoint_id (nullish_or dto.idempotency_key "")) c

abbrev pub new_scheduled : (project : ℕ) → ScheduleDto → (user : ℕ) → ScheduledEvent
new_scheduled project dto user = record {
  project_id = project;
  endpoint_id = dto.endpoint_id;
  event_type = dto.event_type;
  payload = dto.payload;
  scheduled_for = dto.scheduled_for;
  status = pending;
  priority = text_or dto.priority "p2";
  idempotency_key = text_or_null dto.idempotency_key;
  dispatched_event_id = none;
  dispatched_at = none;
  cancelled_at = none;
  cancel_reason = none;
  created_by = user;
}

abbrev pub schedule_unless_known :
    (id project : ℕ)
    → ScheduleDto
    → (user : ℕ) → Option (ℕ × ScheduledEvent)
    → Action Store Scheduled
schedule_unless_known id project dto user (some (old, e)) = pure (duplicate old e.status)
schedule_unless_known id project dto user none = do
  modify (λ s. record s {
    scheduled_events = (id, new_scheduled project dto user) ∷ s.scheduled_events;
  })
  pure (created id)

-- `schedule`; `id` is the new document's.
unfoldable pub schedule : (id project : ℕ) → ScheduleDto → (user now : ℕ) → Action Store Scheduled
schedule id project dto user now = do
  endpoint ← gets (λ s. endpoint_of_project project (find_by_id dto.endpoint_id s.endpoints))
  found ← or_throw endpoint Exception.not_found
  throw_if (leb dto.scheduled_for now) Exception.bad_request
  throw_if (ltb max_schedule_window_ms (dto.scheduled_for - now)) Exception.bad_request
  existing ← gets (λ s. find_existing project dto s.scheduled_events)
  schedule_unless_known id project dto user existing

abbrev pub scheduled_of_project : ℕ → Option ScheduledEvent → Option ScheduledEvent
scheduled_of_project project none = none
scheduled_of_project project (some e) = if e.project_id == project then some e else none

-- `findOne`
abbrev pub find_one : (id project : ℕ) → Action Store ScheduledEvent
find_one id project = do
  found ← gets (λ s. scheduled_of_project project (find_by_id id s.scheduled_events))
  or_throw found Exception.not_found

pub record UpdateDto : Type 0 where
  pub payload : Option Json
  pub scheduled_for : Option ℕ
  pub priority : Option String

abbrev pub is_past : Option ℕ → (now : ℕ) → Bool
is_past none now = false
is_past (some t) now = leb t now

abbrev pub apply_updates : UpdateDto → ScheduledEvent → ScheduledEvent
apply_updates dto e = record e {
  payload = nullish_or dto.payload e.payload;
  priority = text_or dto.priority e.priority;
  scheduled_for = nullish_or dto.scheduled_for e.scheduled_for;
}

abbrev pub update_scheduled : ℕ → (ScheduledEvent → ScheduledEvent) → Store → Store
update_scheduled id f s = record s { scheduled_events = update_by_id id f s.scheduled_events }

-- `update`; a payload is an object, which is never falsy.
unfoldable pub update : (id project : ℕ) → UpdateDto → (now : ℕ) → Action Store (Unit {0})
update id project dto now = do
  event ← find_one id project
  throw_if (not (is_pending event.status)) Exception.bad_request
  throw_if (is_past dto.scheduled_for now) Exception.bad_request
  modify (update_scheduled id (apply_updates dto))

abbrev pub cancel_event : (now : ℕ) → (reason : Option String) → ScheduledEvent → ScheduledEvent
cancel_event now reason e = record e {
  status = cancelled;
  cancelled_at = some now;
  cancel_reason = text_or_null reason;
}

-- `cancel`
unfoldable pub cancel :
    (id project : ℕ) → (reason : Option String) → (now : ℕ) → Action Store (Unit {0})
cancel id project reason now = do
  event ← find_one id project
  throw_if (not (is_pending event.status)) Exception.bad_request
  modify (update_scheduled id (cancel_event now reason))

-- The moment of one run of `dispatchDueEvents`; by the id of a scheduled event, the id of the event
-- that is made of it, its initialisation vector, and the text `sched-${id}-${Date.now()}`.
pub record Tick : Type 0 where
  pub now : ℕ
  pub event_id : ℕ → ℕ
  pub iv : ℕ → String
  pub sched_key : ℕ → String

abbrev pub is_due : (now : ℕ) → ScheduledEvent → Bool
is_due now e = is_pending e.status && leb e.scheduled_for now

abbrev pub is_active_status : EndpointStatus → Bool
is_active_status active = true
is_active_status _ = false

abbrev pub is_active : Option StoredEndpoint → Bool
is_active none = false
is_active (some e) = is_active_status e.status

abbrev pub fail_event : (now : ℕ) → ScheduledEvent → ScheduledEvent
fail_event now e = record e { status = failed; dispatched_at = some now }

abbrev pub queue_event : (now event_id : ℕ) → ScheduledEvent → ScheduledEvent
queue_event now event_id e = record e {
  status = queued;
  dispatched_event_id = some event_id;
  dispatched_at = some now;
}

-- `try { ... } catch (err) { log }`
abbrev pub caught : Action Store (Unit {0}) → Action Store (Unit {0})
caught m s = (ok tt, (m s).1)

module _ {Key : Type 0} (out : Outside Key) (tick : Tick) where
  abbrev pub dispatched_event : (id : ℕ) → ScheduledEvent → Store → StoredEvent
  dispatched_event id e s = record {
    project_id = e.project_id;
    endpoint_id = e.endpoint_id;
    event_type = e.event_type;
    payload =
        sealed_payload out (tick.iv id)
          (scrubbed out (find_by_id e.endpoint_id s.endpoints) e.payload);
    idempotency_key = text_or e.idempotency_key (tick.sched_key id);
    priority = e.priority;
    request_id = none;
    status = EventStatus.pending;
    retry_count = 0;
    next_retry_at = none;
    dead_at = none;
    expires_at = none;
    created_at = tick.now;
  }

  abbrev pub dispatch_active : (id : ℕ) → ScheduledEvent → Action Store (Unit {0})
  dispatch_active id e = do
    event ← gets (dispatched_event id e)
    create_event (tick.event_id id) event
    add_job (record {
      event_id = tick.event_id id;
      request_id = none;
      priority = some (bull_priority e.priority);
    })
    modify (update_scheduled id (queue_event tick.now (tick.event_id id)))

  abbrev pub dispatch_if_active : (id : ℕ) → ScheduledEvent → Bool → Action Store (Unit {0})
  dispatch_if_active id e true = dispatch_active id e
  dispatch_if_active id e false = modify (update_scheduled id (fail_event tick.now))

  -- One round of the loop, for an event as it was when it was found to be due.
  unfoldable pub dispatch_one : (id : ℕ) → ScheduledEvent → Action Store (Unit {0})
  dispatch_one id e = caught (do
    is_on ← gets (λ s. is_active (find_by_id e.endpoint_id s.endpoints))
    dispatch_if_active id e is_on)

  abbrev pub dispatch_each : Collection ScheduledEvent → Action Store (Unit {0})
  dispatch_each [] = pure tt
  dispatch_each ((id, e) ∷ batch) = do dispatch_one id e; dispatch_each batch

  abbrev pub due_events : Store → Collection ScheduledEvent
  due_events s = take 100 (find_many (is_due tick.now) s.scheduled_events)

  -- `dispatchDueEvents`
  unfoldable pub dispatch_due_events : Action Store (Unit {0})
  dispatch_due_events = do batch ← gets due_events; dispatch_each batch
