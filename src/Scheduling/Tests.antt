-- ===== src/Scheduling/Tests.antt =====
-- One scheduled event, due, for an endpoint that is active.
use webhook_backend.Prelude.{
  zero, suc, Collection, All, ◌++◌, ℕ, ◌≡◌, refl, true, false, some, none, [], ◌∷◌, IsKeyed,
}
use webhook_backend.Filters.{null}
use webhook_backend.PayloadCrypto.{Primitives}
use webhook_backend.Delivery.Documents.{active}
use webhook_backend.Delivery.Documents as Delivery
use webhook_backend.Events.{ScheduledEvent, pending, Store, Outside, create_event, add_job}
use webhook_backend.Scheduling.{Tick, cancel, queue_event, dispatch_one, dispatch_due_events}
use webhook_backend.Scheduling.Dispatch.{
  dispatch_job, dispatch_runs, dispatch_runs-blocked, IsBlocked,
}
use webhook_backend.Scheduling.Settled.{IsSettled}
use webhook_backend.Scheduling.Runs.{here, there, dispatches, cancels, reachable-IsSettled}

abbrev prim : Primitives ℕ
prim = record {
  is_hex_key = λ t. false;
  from_hex = λ t. 1;
  from_base64 = λ t. none;
  sha256 = λ t. 1;
  text_length = λ t. 40;
  seal = λ key iv t. ("t", t);
  unseal = λ key iv tag text. some text;
}

abbrev out : Outside ℕ
out = record {
  stringify = λ p. "p";
  parse = λ t. none;
  sha256 = λ t. t;
  month_start = λ t. 0;
  prim = prim;
  keys = record {
    current = none;
    previous = none;
    version_variable = none;
    previous_version_variable = none;
  };
  property_keys = record { array_index = λ k. none; is_inherited = λ k. false };
}

abbrev event : ScheduledEvent
event = record {
  project_id = 1;
  endpoint_id = 2;
  event_type = "order";
  payload = null;
  scheduled_for = 4_000;
  status = pending;
  priority = "p1";
  idempotency_key = some "k1";
  dispatched_event_id = none;
  dispatched_at = none;
  cancelled_at = none;
  cancel_reason = none;
  created_by = 3;
}

abbrev tick : Tick
tick = record { now = 5_000; event_id = λ id. 100; iv = λ id. "a0"; sched_key = λ id. "sched" }

abbrev store : Store
store = record {
  events = [];
  endpoints = (2, record { project_id = 1; status = active; pii_fields = [] }) ∷ [];
  event_types = [];
  quotas = [];
  dedup = [];
  logs = [];
  scheduled_events = (7, event) ∷ [];
  jobs = [];
  queue_up = true;
}

-- The endpoint got an event of the same key in another way.
abbrev stuck_store : Store
stuck_store = record store {
  events =
      (
        50,
        record {
          project_id = 1;
          endpoint_id = 2;
          event_type = "order";
          payload = null;
          idempotency_key = "k1";
          priority = "p2";
          request_id = none;
          status = Delivery.delivered;
          retry_count = 0;
          next_retry_at = none;
          dead_at = none;
          expires_at = none;
          created_at = 100;
        },
      )
      ∷ [];
}

-- As many scheduled events of that key.
abbrev copies : ℕ → Collection ScheduledEvent
copies zero = []
copies (suc n) = (n, event) ∷ copies n

-- A hundred of them, and one of another key behind them.
abbrev crowded : Store
crowded = record stuck_store {
  scheduled_events = copies 100 ++ (500, record event { idempotency_key = some "k2" }) ∷ [];
}

copies-IsBlocked : (n : ℕ) → All (IsBlocked out crowded) (copies n)
copies-IsBlocked zero = tt
copies-IsBlocked (suc n) = ((refl, ("k1", refl, refl, (_, refl))), copies-IsBlocked n)

dispatch_runs-blocked_example : dispatch_runs out (tick ∷ tick ∷ []) crowded ≡ crowded
dispatch_runs-blocked_example =
    dispatch_runs-blocked out (tick ∷ tick ∷ []) crowded
      (copies-IsBlocked 100, (copies-IsBlocked 100, tt))

-- Alone, the last one is queued.
alone :
    (dispatch_due_events out tick (record stuck_store {
      scheduled_events = (500, record event { idempotency_key = some "k2" }) ∷ [];
    })).1.jobs
    ≡ dispatch_job out tick 500 event ∷ []
unfolding dispatch_due_events dispatch_one create_event add_job
alone = refl

-- It was queued.
abbrev settled_store : Store
settled_store = record store { scheduled_events = (7, queue_event 5_000 100 event) ∷ [] }

reachable-IsSettled_example :
    let s' = (cancel 7 1 none 6_000 (dispatch_due_events out tick settled_store).1).1 in
    IsKeyed s'.scheduled_events × IsSettled 7 (queue_event 5_000 100 event) s'
reachable-IsSettled_example =
    reachable-IsSettled out 7 (queue_event 5_000 100 event) {s = settled_store} (refl, tt)
      (refl, refl) (there (there here (dispatches tick)) (cancels 7 1 none 6_000))
