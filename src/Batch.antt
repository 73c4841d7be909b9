-- ===== src/Batch.antt =====
-- src/modules/delivery/batch-delivery.service.ts: the events of an endpoint that are delivered
-- together. A list of Redis is a buffer with the time at which it expires; dates are milliseconds.
pub mod Flushing
mod Tests
use webhook_backend.Prelude.{
  ℕ, ◌+◌, ◌*◌, Bool, true, false, ◌&&◌, Option, some, none, List, [], ◌∷◌, ◌++◌, map, length, any,
  Collection, find_by_id, update_by_id, delete_key, ltb, leb, ◌==◌, if◌then◌else◌,
}
use webhook_backend.Filters.{Json}
use webhook_backend.Delivery.Documents.{EventStatus, delivered}

-- The newest id stands first, as `lpush` leaves it.
pub record Buffer : Type 0 where
  pub ids : List ℕ
  pub expires_at : ℕ

pub record BatchEvent : Type 0 where
  pub payload : Json
  pub status : EventStatus
  pub delivered_at : Option ℕ

pub record BatchEndpoint : Type 0 where
  pub url : ℕ
  pub project_id : ℕ

pub record BatchLog : Type 0 where
  pub event_id : ℕ
  pub endpoint_id : ℕ
  pub project_id : ℕ
  pub status_code : ℕ

-- A request that was made: the address and the payloads.
pub record BatchRequest : Type 0 where
  pub url : ℕ
  pub payloads : List Json

pub record Store : Type 0 where
  pub buffers : Collection Buffer
  pub endpoints : Collection BatchEndpoint
  pub events : Collection BatchEvent
  pub logs : List BatchLog
  pub requests : List BatchRequest

-- `assertSafeUrl`, and the status with which `axios.post` returns, if it does.
pub record Network : Type 0 where
  pub is_safe : ℕ → Bool
  pub post : BatchRequest → Option ℕ

-- `lrange(key, 0, -1)`; a list that has expired is not there.
abbrev pub live_ids : (now : ℕ) → Option Buffer → List ℕ
live_ids now none = []
live_ids now (some b) = if ltb now b.expires_at then b.ids else []

abbrev pub buffered : (now endpoint_id : ℕ) → Store → List ℕ
buffered now id s = live_ids now (find_by_id id s.buffers)

-- `lpush` and `expire`, which starts the window again.
abbrev pub push_id : (now endpoint_id event_id window_seconds : ℕ) → Store → Store
push_id now id e window s = record s {
  buffers =
      (id, record { ids = e ∷ buffered now id s; expires_at = now + 1000 * window })
      ∷ delete_key id s.buffers;
}

abbrev pub is_among : List ℕ → ℕ → Bool
is_among ids k = any (λ i. i == k) ids

-- `find({ _id: { $in: ids } })`, and the payloads
abbrev pub payloads_of : List ℕ → Collection BatchEvent → List Json
payloads_of ids [] = []
payloads_of ids ((k, e) ∷ c) =
    if is_among ids k then e.payload ∷ payloads_of ids c else payloads_of ids c

abbrev pub mark_delivered : (now : ℕ) → BatchEvent → BatchEvent
mark_delivered now e = record e { status = delivered; delivered_at = some now }

-- `findByIdAndUpdate` of each id
abbrev pub mark_each : (now : ℕ) → List ℕ → Collection BatchEvent → Collection BatchEvent
mark_each now [] c = c
mark_each now (i ∷ ids) c = mark_each now ids (update_by_id i (mark_delivered now) c)

abbrev pub is_success : Option ℕ → Bool
is_success none = false
is_success (some status) = leb 200 status && ltb status 300

-- Only the newest event, `first`, has a row in the log.
abbrev pub log_batch :
    (endpoint_id first : ℕ) → BatchEndpoint → Option ℕ → List BatchLog → List BatchLog
log_batch id first e none logs = logs
log_batch id first e (some status) logs =
    logs
    ++ record {
      event_id = first;
      endpoint_id = id;
      project_id = e.project_id;
      status_code = status;
    }
      ∷ []

-- What follows the answer.
abbrev pub settle_batch :
    (now endpoint_id first : ℕ) → List ℕ → BatchEndpoint → Option ℕ → Store → Store
settle_batch now id first ids e answer s =
    if is_success answer
    then record s { events = mark_each now ids s.events; logs = log_batch id first e answer s.logs }
    else s

abbrev pub request_for : List ℕ → BatchEndpoint → Store → BatchRequest
request_for ids e s = record { url = e.url; payloads = payloads_of ids s.events }

abbrev pub send_batch :
    Network → (now endpoint_id first : ℕ) → List ℕ → Option BatchEndpoint → Store → Store
send_batch net now id first ids none s = s
send_batch net now id first ids (some e) s =
    let request = request_for ids e s in
    if net.is_safe e.url
    then settle_batch now id first ids e (net.post request)
        (record s { requests = s.requests ++ request ∷ [] })
    else s

abbrev pub flush_ids : Network → (now endpoint_id : ℕ) → List ℕ → Store → Store
flush_ids net now id [] s = s
flush_ids net now id (first ∷ ids) s =
    send_batch net now id first (first ∷ ids) (find_by_id id s.endpoints)
      (record s { buffers = delete_key id s.buffers })

-- `flushBatch`
pub flush_batch : Network → (now endpoint_id : ℕ) → Store → Store
flush_batch net now id s = flush_ids net now id (buffered now id s) s

-- `addToBatch`
pub add_to_batch : Network → (now endpoint_id event_id window_seconds max_size : ℕ) → Store → Store
add_to_batch net now id e window max_size s =
    let pushed = push_id now id e window s in
    if leb max_size (length (buffered now id pushed)) then flush_batch net now id pushed else pushed

-- The loop of `flushPendingBatches`, with the keys that `scan` returned.
abbrev pub flush_each : Network → (now : ℕ) → List ℕ → Store → Store
flush_each net now [] s = s
flush_each net now (id ∷ ids) s = flush_each net now ids (flush_batch net now id s)

-- `flushPendingBatches`; `scan` returns every key at least once.
pub flush_pending_batches : Network → (now : ℕ) → Store → Store
flush_pending_batches net now s = flush_each net now (map (λ (b : ℕ × Buffer). b.0) s.buffers) s
