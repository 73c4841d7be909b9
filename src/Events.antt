-- ===== src/Events.antt =====
-- The documents and the store of src/modules/events, src/modules/deduplication and
-- src/modules/scheduling. Ids are numbers, dates are milliseconds, dotted paths are lists of keys.
pub mod Sending
pub mod Recovery
pub mod Erasure
pub mod Acceptance
pub mod Reading
pub mod DeadLetters
mod Tests
use Prim.Native.String.{String}
use text.Mathlib.Text.{◌==◌ as str_eq}
use webhook_backend.Prelude.{
  ℕ, ◌≡◌, ap, ok, err, Bool, true, false, not, ◌&&◌, ◌||◌, Option, some, none, List, [], ◌∷◌,
  Collection, ◌==◌, if◌then◌else◌, Exception, Action, throw_if, gets, modify, ◌>>=◌, ◌>>◌,
}
use webhook_backend.Filters.{Json}
use webhook_backend.PayloadCrypto.{Primitives}
use webhook_backend.PayloadCrypto as PayloadCrypto
use webhook_backend.PiiScrubber as PiiScrubber
use webhook_backend.Delivery.Documents.{EventStatus, EndpointStatus}

-- A document of event.schema.ts, as these services see it
pub record StoredEvent : Type 0 where
  pub project_id : ℕ
  pub endpoint_id : ℕ
  pub event_type : String
  pub payload : Json
  pub idempotency_key : String
  pub priority : String
  pub request_id : Option String
  pub status : EventStatus
  pub retry_count : ℕ
  pub next_retry_at : Option ℕ
  pub dead_at : Option ℕ
  pub expires_at : Option ℕ
  pub created_at : ℕ

pub record StoredEndpoint : Type 0 where
  pub project_id : ℕ
  pub status : EndpointStatus
  pub pii_fields : List (List String)

-- A document of event-type.schema.ts
pub record EventType : Type 0 where
  pub project_id : ℕ
  pub name : String
  pub default_ttl_seconds : ℕ

-- `eventsPerMonth` of a subscription; zero is no limit.
pub record EventQuota : Type 0 where
  pub user_id : ℕ
  pub events_per_month : ℕ

-- A key of the deduplication cache, and when it expires.
pub record DedupEntry : Type 0 where
  pub project_id : ℕ
  pub endpoint_id : ℕ
  pub hash : String
  pub expires_at : ℕ

-- A `deliver` job; Bull's own default is no priority.
pub record DeliverJob : Type 0 where
  pub event_id : ℕ
  pub request_id : Option String
  pub priority : Option ℕ

pub data ScheduledEventStatus : Type 0 where
  pending queued delivered cancelled failed expired : ScheduledEventStatus

-- A document of scheduled-event.schema.ts
pub record ScheduledEvent : Type 0 where
  pub project_id : ℕ
  pub endpoint_id : ℕ
  pub event_type : String
  pub payload : Json
  pub scheduled_for : ℕ
  pub status : ScheduledEventStatus
  pub priority : String
  pub idempotency_key : Option String
  pub dispatched_event_id : Option ℕ
  pub dispatched_at : Option ℕ
  pub cancelled_at : Option ℕ
  pub cancel_reason : Option String
  pub created_by : ℕ

-- `queue_up` is whether `webhookQueue.add` succeeds; `logs` is the `eventId` of each delivery log.
pub record Store : Type 0 where
  pub events : Collection StoredEvent
  pub endpoints : Collection StoredEndpoint
  pub event_types : List EventType
  pub quotas : List EventQuota
  pub dedup : List DedupEntry
  pub logs : List ℕ
  pub scheduled_events : Collection ScheduledEvent
  pub jobs : List DeliverJob
  pub queue_up : Bool

-- `JSON.stringify` and `JSON.parse`, SHA-256, the first moment of a moment's month, and what the
-- payload's encryption and scrubbing need.
pub record Outside (Key : Type 0) : Type 0 where
  pub stringify : Json → String
  pub parse : String → Option Json
  pub sha256 : String → String
  pub month_start : ℕ → ℕ
  pub prim : Primitives Key
  pub keys : PayloadCrypto.Keys Key
  pub property_keys : PiiScrubber.Keys

-- `webhookQueue.add`
unfoldable pub add_job : DeliverJob → Action Store (Unit {0})
add_job job = do
  up ← gets (λ s. s.queue_up)
  throw_if (not up) Exception.unavailable
  modify (λ s. record s { jobs = job ∷ s.jobs })

abbrev pub has_key : (key : String) → (endpoint : ℕ) → StoredEvent → Bool
has_key key endpoint e = str_eq e.idempotency_key key && e.endpoint_id == endpoint

-- `findOne({ idempotencyKey, endpointId })`
abbrev pub find_by_key :
    (key : String) → (endpoint : ℕ) → Collection StoredEvent → Option (ℕ × StoredEvent)
find_by_key key endpoint [] = none
find_by_key key endpoint ((id, e) ∷ events) =
    if has_key key endpoint e then some (id, e) else find_by_key key endpoint events

abbrev pub is_taken : StoredEvent → Collection StoredEvent → Bool
is_taken new [] = false
is_taken new ((id, e) ∷ events) =
    has_key new.idempotency_key new.endpoint_id e || is_taken new events

-- `eventModel.create`, which `uq_idempotency_endpoint` may refuse
unfoldable pub create_event : (id : ℕ) → StoredEvent → Action Store (Unit {0})
create_event id new = do
  taken ← gets (λ s. is_taken new s.events)
  throw_if taken Exception.duplicate_key
  modify (λ s. record s { events = (id, new) ∷ s.events })

pub add_job-up :
    (job : DeliverJob) (s : Store)
    → s.queue_up ≡ true
    → add_job job s ≡ (ok tt, record s { jobs = job ∷ s.jobs })
unfolding add_job
add_job-up job s up =
    ap
      (λ b.
        (throw_if (not b) Exception.unavailable
            >> modify (λ (s : Store). record s { jobs = job ∷ s.jobs }))
          s)
      up

pub add_job-down :
    (job : DeliverJob) (s : Store)
    → s.queue_up ≡ false
    → add_job job s ≡ (err Exception.unavailable, s)
unfolding add_job
add_job-down job s down =
    ap
      (λ b.
        (throw_if (not b) Exception.unavailable
            >> modify (λ (s : Store). record s { jobs = job ∷ s.jobs }))
          s)
      down

-- `create` where the unique index has room, and where it has not.
pub create_event-free :
    (id : ℕ) (new : StoredEvent) (s : Store)
    → is_taken new s.events ≡ false
    → create_event id new s ≡ (ok tt, record s { events = (id, new) ∷ s.events })
unfolding create_event
create_event-free id new s free =
    ap
      (λ b.
        (throw_if b Exception.duplicate_key
            >> modify (λ (s : Store). record s { events = (id, new) ∷ s.events }))
          s)
      free

pub create_event-taken :
    (id : ℕ) (new : StoredEvent) (s : Store)
    → is_taken new s.events ≡ true
    → create_event id new s ≡ (err Exception.duplicate_key, s)
unfolding create_event
create_event-taken id new s taken =
    ap
      (λ b.
        (throw_if b Exception.duplicate_key
            >> modify (λ (s : Store). record s { events = (id, new) ∷ s.events }))
          s)
      taken
