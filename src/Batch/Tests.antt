-- ===== src/Batch/Tests.antt =====
-- An endpoint with a buffer of one event, and networks that answer and that do not.
use webhook_backend.Prelude.{◌<◌, ◌≡◌, refl, true, some, none, [], ◌∷◌, length, find_by_id, arith}
use mathlib.Core.Option
use webhook_backend.Filters.{null}
use webhook_backend.Delivery.Documents.{pending, delivered}
use webhook_backend.Batch.{
  BatchEndpoint, Store, Network, buffered, flush_batch, add_to_batch, flush_pending_batches,
}
use webhook_backend.Batch.Flushing.{add_to_batch-lt}

abbrev endpoint : BatchEndpoint
endpoint = record { url = 9; project_id = 1 }

abbrev store : Store
store = record {
  buffers = (7, record { ids = 3 ∷ []; expires_at = 5000 }) ∷ [];
  endpoints = (7, endpoint) ∷ [];
  events =
      (3, record { payload = null; status = pending; delivered_at = none })
      ∷ (4, record { payload = null; status = pending; delivered_at = none })
      ∷ [];
  logs = [];
  requests = [];
}

abbrev answering : Network
answering = record { is_safe = λ u. true; post = λ r. some 204 }

abbrev silent : Network
silent = record { is_safe = λ u. true; post = λ r. none }

add_to_batch-lt_example : length (buffered 100 7 (add_to_batch answering 100 7 4 60 2 store)) < 2
add_to_batch-lt_example = add_to_batch-lt answering 100 7 4 60 2 store (omega arith)

-- The second event fills the batch: both are delivered, in one request with one row of the log.
full : length (add_to_batch answering 100 7 4 60 2 store).requests ≡ 1
unfolding add_to_batch flush_batch
full = refl

delivered-full :
    find_by_id 3 (add_to_batch answering 100 7 4 60 2 store).events
    ≡ some (record { payload = null; status = delivered; delivered_at = some 100 })
unfolding add_to_batch flush_batch
delivered-full = refl

-- No answer: the event is as it was, and is in no buffer.
unanswered :
    (find_by_id 3 (flush_pending_batches silent 100 store).events
      ≡ some (record { payload = null; status = pending; delivered_at = none }))
    × (buffered 100 7 (flush_pending_batches silent 100 store) ≡ [])
unfolding flush_pending_batches flush_batch
unanswered = (refl, refl)
