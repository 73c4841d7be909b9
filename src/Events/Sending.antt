-- ===== src/Events/Sending.antt =====
-- `send` of src/modules/events/events.service.ts, with the deduplication window of
-- src/modules/deduplication/deduplication.service.ts.
use Prim.Native.String.{String}
use text.Mathlib.Text.{◌==◌ as str_eq}
use webhook_backend.Prelude.{
  ℕ, zero, suc, ◌+◌, ◌*◌, Bool, true, false, not, ◌&&◌, ◌||◌, Option, some, none, List, ◌∷◌,
  Collection, find_by_id, count_documents, find, any, nullish_or, is_some, leb, ltb, ◌==◌,
  if◌then◌else◌, Exception, Action, throw_if, gets, modify, pure, ◌>>=◌, ◌>>◌,
}
use webhook_backend.Filters.{Json, str}
use webhook_backend.PayloadCrypto.{encrypt, text_or}
use webhook_backend.PiiScrubber.{scrub}
use webhook_backend.Delivery.Documents.{EventStatus}
use webhook_backend.Events.{
  StoredEvent, StoredEndpoint, EventType, EventQuota, DedupEntry, Store, Outside, add_job,
  find_by_key, create_event,
}

-- The arguments of `send`; `fresh_key` is the random key it may make, `id` the new document's id
-- and `iv` the initialisation vector, if they are needed.
pub record SendArgs : Type 0 where
  pub project_id : ℕ
  pub endpoint_id : ℕ
  pub event_type : String
  pub payload : Json
  pub idempotency_key : Option String
  pub deduplication_window_secs : Option ℕ
  pub priority : Option String
  pub endpoint_window_secs : ℕ
  pub user_id : Option ℕ
  pub request_id : Option String
  pub now : ℕ
  pub id : ℕ
  pub fresh_key : String
  pub iv : String

-- What `send` answers.
pub data Sent : Type 0 where
  created : (id : ℕ) → Sent
  duplicate : (id : ℕ) → EventStatus → Sent
  deduplicated : (window_secs : ℕ) → Sent

abbrev pub quota_of : Option ℕ → List EventQuota → Option EventQuota
quota_of none quotas = none
quota_of (some user) quotas = find (λ q. q.user_id == user) quotas

abbrev pub is_of_month : (project start : ℕ) → StoredEvent → Bool
is_of_month project start e = e.project_id == project && leb start e.created_at

-- `sub && sub.eventsPerMonth > 0` and the count of the month
abbrev pub is_over : (project start : ℕ) → Option EventQuota → Collection StoredEvent → Bool
is_over project start none events = false
is_over project start (some q) events =
    ltb 0 q.events_per_month
    && leb q.events_per_month (count_documents (is_of_month project start) events)

-- `priorityMap[priority] || 3`
abbrev pub bull_priority : String → ℕ
bull_priority p =
    if str_eq p "p0"
    then 1
    else if str_eq p "p1"
    then 2
    else if str_eq p "p2"
    then 3
    else if str_eq p "p3"
    then 4
    else 3

-- The schema's `enum`, which `create` checks before anything is stored.
abbrev pub is_priority : String → Bool
is_priority p = str_eq p "p0" || str_eq p "p1" || str_eq p "p2" || str_eq p "p3"

abbrev pub is_entry : (project endpoint : ℕ) → (hash : String) → (now : ℕ) → DedupEntry → Bool
is_entry project endpoint hash now d =
    d.project_id == project
    && d.endpoint_id == endpoint
    && str_eq d.hash hash
    && ltb now d.expires_at

-- `set(key, '1', 'EX', windowSecs, 'NX')` answers null where the key is there.
abbrev pub set_if_absent :
    (project endpoint : ℕ) → (hash : String) → (now until : ℕ) → Bool → Action Store Bool
set_if_absent project endpoint hash now until true = pure true
set_if_absent project endpoint hash now until false = do
  modify (λ s. record s {
    dedup =
        (record { project_id = project; endpoint_id = endpoint; hash = hash; expires_at = until })
        ∷ s.dedup;
  })
  pure false

module _ {Key : Type 0} (out : Outside Key) where
  abbrev pub key_of : SendArgs → String
  key_of a = text_or a.idempotency_key a.fresh_key

  -- `PiiScrubber.scrub` where there are fields, then `PayloadCrypto.encrypt` where there is a key
  abbrev pub scrubbed : Option StoredEndpoint → Json → Json
  scrubbed none payload = payload
  scrubbed (some e) payload = scrub out.property_keys payload e.pii_fields

  abbrev pub sealed_payload : (iv : String) → Json → Json
  sealed_payload iv payload =
      if is_some out.keys.current
      then str (encrypt out.prim out.keys iv (out.stringify payload))
      else payload

  -- `isDuplicate`
  abbrev pub is_duplicate :
      (project endpoint : ℕ) → (key : String) → (window_secs now : ℕ) → Action Store Bool
  is_duplicate project endpoint key window_secs now = do
    known ← gets (λ s. any (is_entry project endpoint (out.sha256 key) now) s.dedup)
    set_if_absent project endpoint (out.sha256 key) now (now + window_secs * 1_000) known

  abbrev pub window_of : SendArgs → ℕ
  window_of a = nullish_or a.deduplication_window_secs a.endpoint_window_secs

  -- `if (windowSecs > 0)`, and the check behind it
  abbrev pub is_within_window : SendArgs → (window_secs : ℕ) → Action Store Bool
  is_within_window a zero = pure false
  is_within_window a (suc w) =
      is_duplicate a.project_id a.endpoint_id
        (text_or a.idempotency_key (out.sha256 (out.stringify a.payload))) (suc w) a.now

  abbrev pub ttl_of : SendArgs → List EventType → ℕ
  ttl_of a types =
      let found = find (λ t. t.project_id == a.project_id && str_eq t.name a.event_type) types in
      elim found [ none ↦ 0 | some t ↦ t.default_ttl_seconds ]

  abbrev pub expires_at : (now ttl : ℕ) → Option ℕ
  expires_at now zero = none
  expires_at now (suc ttl) = some (now + suc ttl * 1_000)

  abbrev pub new_event : SendArgs → Store → StoredEvent
  new_event a s = record {
    project_id = a.project_id;
    endpoint_id = a.endpoint_id;
    event_type = a.event_type;
    payload = sealed_payload a.iv (scrubbed (find_by_id a.endpoint_id s.endpoints) a.payload);
    idempotency_key = key_of a;
    priority = text_or a.priority "p2";
    request_id = a.request_id;
    status = EventStatus.pending;
    retry_count = 0;
    next_retry_at = none;
    dead_at = none;
    expires_at = expires_at a.now (ttl_of a s.event_types);
    created_at = a.now;
  }

  abbrev pub store_and_queue : SendArgs → Action Store Sent
  store_and_queue a = do
    event ← gets (new_event a)
    throw_if (not (is_priority event.priority)) Exception.bad_request
    create_event a.id event
    add_job (record {
      event_id = a.id;
      request_id = a.request_id;
      priority = some (bull_priority (text_or a.priority "p2"));
    })
    pure (created a.id)

  abbrev pub send_unless_duplicate : SendArgs → Bool → Action Store Sent
  send_unless_duplicate a true = pure (deduplicated (window_of a))
  send_unless_duplicate a false = store_and_queue a

  abbrev pub send_unless_known : SendArgs → Option (ℕ × StoredEvent) → Action Store Sent
  send_unless_known a (some (id, e)) = pure (duplicate id e.status)
  send_unless_known a none = do dup ← is_within_window a (window_of a); send_unless_duplicate a dup

  -- `send`
  unfoldable pub send : SendArgs → Action Store Sent
  send a = do
    over ←
        gets
          (λ s. is_over a.project_id (out.month_start a.now) (quota_of a.user_id s.quotas) s.events)
    throw_if over Exception.forbidden
    existing ← gets (λ s. find_by_key (key_of a) a.endpoint_id s.events)
    send_unless_known a existing
