-- ===== src/Events/Recovery.antt =====
-- Reading and replaying in src/modules/events/events.service.ts: `findOne`, `findAll`, `replay`,
-- `getDlq` and `replayDlq`. The delivery attempts that `findOne` joins are left out; the chunks of
-- ten that `replayDlq` makes of a batch are taken one event after the other.
use Prim.Native.String.{String}
use text.Mathlib.Text.{starts_with}
use webhook_backend.Prelude.{
  ℕ, zero, suc, ◌+◌, ◌-◌, ◌*◌, min, max, Bool, true, false, ◌&&◌, Option, some, none, [], ◌∷◌,
  length, take, Collection, find_by_id, update_by_id, find_many, count_documents, ltb, ◌==◌,
  if◌then◌else◌, Result, ok, err, Exception, Action, or_throw, throw, gets, modify, pure, ◌>>=◌,
  ◌>>◌,
}
use webhook_backend.Filters.{Json, null, bool, num, str, arr, obj}
use webhook_backend.PayloadCrypto.{decrypt}
use webhook_backend.Delivery.Documents.{pending, dead, is_status}
use webhook_backend.Events.{StoredEvent, Store, Outside, add_job}

abbrev pub of_project : ℕ → Option StoredEvent → Option StoredEvent
of_project project none = none
of_project project (some e) = if e.project_id == project then some e else none

-- `JSON.parse`, of the text that `decrypt` gave
abbrev pub parse_opened : {Key : Type 0} → Outside Key → Result String → Action Store Json
parse_opened out (err e) = throw e
parse_opened out (ok t) = or_throw (out.parse t) Exception.bad_request

-- The payload that `findOne` shows.
abbrev pub opened : {Key : Type 0} → Outside Key → Json → Action Store Json
opened out (str t) =
    if starts_with t "enc:" then parse_opened out (decrypt out.prim out.keys t) else pure (str t)
opened out null = pure null
opened out (bool b) = pure (bool b)
opened out (num n) = pure (num n)
opened out (arr items) = pure (arr items)
opened out (obj fields) = pure (obj fields)

-- `findOne`
abbrev pub find_one : {Key : Type 0} → Outside Key → (id project : ℕ) → Action Store StoredEvent
find_one out id project = do
  found ← gets (λ s. of_project project (find_by_id id s.events))
  event ← or_throw found Exception.not_found
  payload ← opened out event.payload
  pure (record event { payload = payload })

abbrev pub skip : Collection StoredEvent → ℕ → Collection StoredEvent
skip events zero = events
skip [] (suc n) = []
skip (e ∷ events) (suc n) = skip events n

-- `findAll`, over the project's events in their order; `limit` is a whole number.
abbrev pub find_all :
    (sort : Collection StoredEvent → Collection StoredEvent)
    → (project page limit : ℕ) → Store
    → Collection StoredEvent × ℕ
find_all sort project page limit s =
    let size = max 1 (min 200 limit) in
    let events = find_many (λ e. e.project_id == project) s.events in
    (take size (skip (sort events) ((max 1 page - 1) * size)), length events)

-- `replay`
unfoldable pub replay : (id project : ℕ) → Action Store (Unit {0})
unfolding add_job
replay id project = do
  event ← or_throw (← gets (λ s. of_project project (find_by_id id s.events))) Exception.not_found
  modify (λ s. record s {
    events =
        update_by_id id (λ e. record e { status = pending; retry_count = 0; next_retry_at = none })
          s.events;
  })
  add_job (record { event_id = id; request_id = event.request_id; priority = none })

abbrev pub is_dead_of : ℕ → StoredEvent → Bool
is_dead_of project e = e.project_id == project && is_status e.status dead

-- `getDlq`, less the order and the page
abbrev pub get_dlq : ℕ → Store → Collection StoredEvent × ℕ
get_dlq project s =
    (find_many (is_dead_of project) s.events, count_documents (is_dead_of project) s.events)

abbrev pub revive : StoredEvent → StoredEvent
revive e = record e { status = pending; retry_count = 0; dead_at = none }

-- One event of a batch of `replayDlq`.
abbrev pub replay_dead : (id : ℕ) → StoredEvent → Action Store (Unit {0})
replay_dead id e = do
  modify (λ s. record s { events = update_by_id id revive s.events })
  add_job (record { event_id = id; request_id = e.request_id; priority = none })

abbrev pub replay_batch : Collection StoredEvent → Action Store (Unit {0})
replay_batch [] = pure tt
replay_batch ((id, e) ∷ batch) = do replay_dead id e; replay_batch batch

-- The `while` of `replayDlq` with batches of `size`, for at most `fuel` rounds; nothing when the
-- rounds run out. An answer is the number of events that were replayed.
unfoldable pub replay_rounds : (fuel size project total : ℕ) → Action Store (Option ℕ)
replay_rounds zero size project total = pure none
replay_rounds (suc fuel) size project total = do
  batch ← gets (λ s. take size (find_many (is_dead_of project) s.events))
  replay_batch batch
  elim (ltb (length batch) size) [
    | true ↦ pure (some (total + length batch))
    | false ↦ replay_rounds fuel size project (total + length batch)
  ]

-- `replayDlq`
unfoldable pub replay_dlq : (fuel project : ℕ) → Action Store (Option ℕ)
replay_dlq fuel project = replay_rounds fuel 100 project 0
