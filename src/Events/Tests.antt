-- ===== src/Events/Tests.antt =====
-- One project with one endpoint, whose payloads are stored as they are or encrypted.
use webhook_backend.Prelude.{
  ℕ, ◌≡◌, refl, true, false, not, ◌&&◌, some, none, [], ◌∷◌, length, find_by_id, count_documents,
  ok, err, Exception, arith, if◌then◌else◌, ◌+◌,
}
use webhook_backend.Filters.{Json, str, obj, end, field}
use webhook_backend.PayloadCrypto.{Primitives}
use webhook_backend.Delivery.Documents.{pending, dead, active}
use webhook_backend.Events.{StoredEvent, StoredEndpoint, Store, Outside, create_event, add_job}
use webhook_backend.Events.Sending.{SendArgs, created, duplicate, send, new_event}
use webhook_backend.Events.Acceptance.{send_again, send_lost}
use webhook_backend.Events.Reading.{send-find_one}
use webhook_backend.Events.Recovery.{is_dead_of, find_one, replay_rounds}
use webhook_backend.Events.DeadLetters.{replay_rounds-ends}
use webhook_backend.Events.Erasure.{
  passes, is_in, is_of_customer, erase_by_customer_id, erase_by_customer_id-lem,
  erase_keeps_encrypted,
}

abbrev prim : Primitives ℕ
prim = record {
  is_hex_key = λ t. false;
  from_hex = λ t. 1;
  from_base64 = λ t. none;
  sha256 = λ t. 1;
  text_length = λ t. 40;
  seal = λ key iv t. ("t", t);
  unseal = λ key iv tag text. some text;
}

abbrev payload : Json
payload = obj (field "customerId" (str "c1") (field "email" (str "a@x.org") end))

abbrev scrubbed_payload : Json
scrubbed_payload = obj (field "customerId" (str "c1") (field "email" (str "[REDACTED]") end))

-- `stringify` of what is stored is a text that `parse` knows.
abbrev out : Outside ℕ
out = record {
  stringify = λ p. "p";
  parse = λ t. some scrubbed_payload;
  sha256 = λ t. t;
  month_start = λ t. 0;
  prim = prim;
  keys = record {
    current = some 1;
    previous = none;
    version_variable = none;
    previous_version_variable = none;
  };
  property_keys = record { array_index = λ k. none; is_inherited = λ k. false };
}

abbrev endpoint : StoredEndpoint
endpoint = record { project_id = 1; status = active; pii_fields = ("email" ∷ []) ∷ [] }

abbrev store : Store
store = record {
  events = [];
  endpoints = (2, endpoint) ∷ [];
  event_types = [];
  quotas = [];
  dedup = [];
  logs = [];
  scheduled_events = [];
  jobs = [];
  queue_up = true;
}

abbrev store_without_queue : Store
store_without_queue = record store { queue_up = false }

abbrev args : SendArgs
args = record {
  project_id = 1;
  endpoint_id = 2;
  event_type = "order";
  payload = payload;
  idempotency_key = some "k1";
  deduplication_window_secs = none;
  priority = none;
  endpoint_window_secs = 60;
  user_id = none;
  request_id = none;
  now = 5_000;
  id = 9;
  fresh_key = "r1";
  iv = "a0";
}

-- The same again, later.
abbrev later_args : SendArgs
later_args = record args { now = 6_000; id = 10; fresh_key = "r2" }

accepted : (send out args store).0 ≡ ok (created 9)
unfolding send create_event add_job
accepted = refl

refused : (send out args store_without_queue).0 ≡ err Exception.unavailable
unfolding send create_event add_job
refused = refl

send_again_example :
    send out later_args (send out args store).1
    ≡ (ok (duplicate 9 pending), (send out args store).1)
send_again_example = send_again out args later_args store accepted refl refl refl

send_lost_example :
    let s' = record (send out args store_without_queue).1 { queue_up = true } in
    ((send out later_args s').0 ≡ ok (duplicate 9 pending))
    × ((send out later_args s').1.jobs ≡ store_without_queue.jobs)
send_lost_example = send_lost out args later_args store_without_queue refused refl refl refl

send-find_one_example :
    (find_one out 9 1 (send out args store).1).0
    ≡ ok (record (new_event out args store) { payload = scrubbed_payload })
send-find_one_example =
    send-find_one out args store refl (ground arith) (ground arith, refl)
      (
        refl,
        record {
          unseals = refl;
          tag_plain = ground arith;
          text_plain = ground arith;
          tag_filled = refl;
          text_filled = refl;
        },
      )
      accepted

abbrev dead_event : StoredEvent
dead_event = record {
  project_id = 1;
  endpoint_id = 2;
  event_type = "order";
  payload = payload;
  idempotency_key = "k0";
  priority = "p2";
  request_id = none;
  status = dead;
  retry_count = 5;
  next_retry_at = none;
  dead_at = some 400;
  expires_at = none;
  created_at = 100;
}

-- Three dead events, replayed in batches of two.
abbrev dead_store : Store
dead_store = record store {
  events = (3, dead_event) ∷ (4, dead_event) ∷ (5, dead_event) ∷ [];
  logs = 3 ∷ 3 ∷ 8 ∷ [];
}

replay_rounds-ends_example :
    let dead_events = count_documents (is_dead_of 1) dead_store.events in
    (s' : Store) × (replay_rounds 4 2 1 0 dead_store ≡ (ok (some (0 + dead_events)), s'))
    × (count_documents (is_dead_of 1) s'.events ≡ 0)
    × (length s'.jobs ≡ length dead_store.jobs + dead_events)
replay_rounds-ends_example =
    replay_rounds-ends 4 2 1 0 dead_store (omega arith) (refl, (refl, (refl, tt))) refl
      (omega arith)

erase_by_customer_id-lem_example :
    let s' = erase_by_customer_id 1 "c1" dead_store in
    let is_erased = passes (is_of_customer 1 "c1") (find_by_id 3 dead_store.events) in
    (find_by_id 3 s'.events ≡ (if is_erased then none else find_by_id 3 dead_store.events))
    × (is_in s'.logs 3 ≡ (is_in dead_store.logs 3 && not is_erased))
erase_by_customer_id-lem_example =
    erase_by_customer_id-lem 1 "c1" dead_store 3 (refl, (refl, (refl, tt)))

erased-dead_store : (erase_by_customer_id 1 "c1" dead_store).logs ≡ 8 ∷ []
unfolding erase_by_customer_id
erased-dead_store = refl

erase_keeps_encrypted_example :
    find_by_id 9 (erase_by_customer_id 1 "c1" (send out args store).1).events
    ≡ some (new_event out args store)
erase_keeps_encrypted_example = erase_keeps_encrypted out args store 1 "c1" refl tt refl accepted
