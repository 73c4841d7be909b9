-- ===== src/Delivery/LogWriter/Tests.antt =====
-- The log writer on a short run.
use webhook_backend.Prelude.{◌≡◌, refl, true, [], ◌∷◌, ◌++◌}
use webhook_backend.Delivery.Documents.{DeliveryLog}
use webhook_backend.Delivery.Samples.{row}
use webhook_backend.Delivery.LogWriter.{Sizes, Writer, new_writer, enqueue, enqueues}
use webhook_backend.Delivery.LogWriter.Laws.{Run, start, next, run_hands_over}

abbrev sizes : Sizes
sizes = record { batch_size = 2; max_buffer = 10 }

abbrev second_row : DeliveryLog
second_row = record row { attempt = 2 }

-- A writer with a row in flight, one in the buffer, and the timer set.
abbrev busy : Writer
busy = record {
  buffer = second_row ∷ [];
  timer = true;
  flushing = true;
  in_flight = row ∷ [];
  handed = row ∷ [];
  stored = [];
}

abbrev first_two :
    Run sizes (row ∷ second_row ∷ []) (enqueue sizes second_row (enqueue sizes row new_writer))
first_two = next (next start (enqueues row refl) refl) (enqueues second_row refl) refl

run_hands_over_example :
    let w = enqueue sizes second_row (enqueue sizes row new_writer) in
    w.handed ++ w.buffer ≡ row ∷ second_row ∷ []
run_hands_over_example = run_hands_over first_two
