-- ===== src/Delivery/LogWriter.antt =====
-- delivery/delivery-log-writer.service.ts: delivery logs are buffered and written in batches.
-- `flush` is split where it awaits `insertMany`: `flush` starts the write, and `inserted` or
-- `insert_failed` is its end. `handed` lists every row that was given to `insertMany`.
pub mod Laws
mod Tests
use webhook_backend.Prelude.{
  ℕ, ◌≡◌, Bool, true, false, List, [], ◌∷◌, ◌++◌, length, leb, if◌then◌else◌,
}
use webhook_backend.Delivery.Documents.{DeliveryLog}

-- DELIVERY_LOG_BATCH_SIZE and DELIVERY_LOG_MAX_BUFFER.
pub record Sizes : Type 0 where
  pub batch_size : ℕ
  pub max_buffer : ℕ

pub record Writer : Type 0 where
  pub buffer : List DeliveryLog
  pub timer : Bool
  pub flushing : Bool
  pub in_flight : List DeliveryLog
  pub handed : List DeliveryLog
  pub stored : List DeliveryLog

abbrev pub new_writer : Writer
new_writer = record {
  buffer = [];
  timer = false;
  flushing = false;
  in_flight = [];
  handed = [];
  stored = [];
}

-- `flush`, up to its await
pub flush : Writer → Writer
flush w = elim w.flushing [
  | true ↦ w
  | false ↦ elim w.buffer [
    | [] ↦ w
    | row ∷ rows ↦ record w {
      buffer = [];
      timer = false;
      flushing = true;
      in_flight = row ∷ rows;
      handed = w.handed ++ row ∷ rows;
    }
  ]
]

-- `enqueue`
pub enqueue : Sizes → DeliveryLog → Writer → Writer
unfolding flush
enqueue sizes row w =
    let w' = record w { buffer = w.buffer ++ row ∷ [] } in
    if leb sizes.batch_size (length w'.buffer)
    then flush w'
    else if leb sizes.max_buffer (length w'.buffer)
    then flush w'
    else record w' { timer = true }

-- The callback of the timer.
pub timer_fires : Writer → Writer
unfolding flush
timer_fires w = flush (record w { timer = false })

-- The rest of `flush` after `insertMany` has returned, or has thrown.
pub inserted : Writer → Writer
inserted w = record w { flushing = false; in_flight = []; stored = w.stored ++ w.in_flight }

pub insert_failed : Writer → Writer
insert_failed w = record w { flushing = false; in_flight = [] }

-- What can happen to a writer: the database's answers come only while a write is in flight, and
-- the timer fires only while it is set.
pub data Step (sizes : Sizes) (w w' : Writer) : Type 0 where
  enqueues : (row : DeliveryLog) → w' ≡ enqueue sizes row w → Step sizes w w'
  fires : w.timer ≡ true → w' ≡ timer_fires w → Step sizes w w'
  flushes : w' ≡ flush w → Step sizes w w'
  inserts : w.flushing ≡ true → w' ≡ inserted w → Step sizes w w'
  fails : w.flushing ≡ true → w' ≡ insert_failed w → Step sizes w w'

-- The rows that a step has put in.
abbrev pub enqueued : {sizes : Sizes} {w w' : Writer} → Step sizes w w' → List DeliveryLog
enqueued (enqueues row e) = row ∷ []
enqueued _ = []
