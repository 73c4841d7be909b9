-- ===== src/Delivery/LogWriter/Laws.antt =====
-- No row is lost or handed over twice, and when a row can be left behind.
use webhook_backend.Prelude.{
  ℕ, ◌≤◌, ◌≡◌, ◌≢◌, refl, sym, ap, ◌∙◌, true, false, List, [], ◌∷◌, ◌++◌, length, arith, leb,
  Bool-cases, inl, inr, if-intro,
}
use mathlib.Core.List.{append_assoc, append-nil}
use webhook_backend.Delivery.Documents.{DeliveryLog}
use webhook_backend.Delivery.LogWriter.{
  Sizes, Writer, new_writer, flush, enqueue, timer_fires, inserted, insert_failed, Step, enqueues,
  fires, flushes, inserts, fails, enqueued,
}

-- Every row that was handed over or waits, in order.
abbrev pub taken : Writer → List DeliveryLog
taken w = w.handed ++ w.buffer

flush-taken : (w : Writer) → taken (flush w) ≡ taken w
unfolding flush
flush-taken w = ground (arith, append-nil (taken w))

enqueue-taken :
    (sizes : Sizes) (row : DeliveryLog) (w : Writer)
    → taken (enqueue sizes row w) ≡ taken w ++ row ∷ []
unfolding enqueue
enqueue-taken sizes row w =
    let w' : Writer = record w { buffer = w.buffer ++ row ∷ [] } in
    let P : Writer → Type 0 = λ v. taken v ≡ taken w ++ row ∷ [] in
    let longer : taken w' ≡ taken w ++ row ∷ [] = sym (append_assoc w.handed w.buffer (row ∷ [])) in
    if-intro P (leb sizes.batch_size (length w'.buffer)) (flush-taken w' ∙ longer)
      (if-intro P (leb sizes.max_buffer (length w'.buffer)) (flush-taken w' ∙ longer) longer)

Step-taken :
    {sizes : Sizes} {w w' : Writer} (s : Step sizes w w') → taken w' ≡ taken w ++ enqueued s
unfolding timer_fires inserted insert_failed
Step-taken {sizes} {w} (enqueues row e) = rw e (enqueue-taken sizes row w)
Step-taken {w} (fires _ e) = rw (e, append-nil) (flush-taken (record w { timer = false }))
Step-taken {w} (flushes e) = rw (e, append-nil) (flush-taken w)
Step-taken {w} (inserts _ e) = rw (e, append-nil)
Step-taken {w} (fails _ e) = rw (e, append-nil)

-- A run of the writer from its start, with the rows that were put in, in order.
pub data Run (sizes : Sizes) : List DeliveryLog → Writer → Type 0 where
  start : Run sizes [] new_writer
  next :
      {rows : List DeliveryLog} {w w' : Writer} {all_rows : List DeliveryLog}
      → Run sizes rows w
      → (s : Step sizes w w') → all_rows ≡ rows ++ enqueued s
      → Run sizes all_rows w'

-- Whatever the interleaving of calls, timer and database, the rows that were given to `insertMany`,
-- followed by those in the buffer, are the rows that were put in: each once, in order, none lost.
pub run_hands_over :
    {sizes : Sizes} {rows : List DeliveryLog} {w : Writer}
    → Run sizes rows w
    → w.handed ++ w.buffer ≡ rows
run_hands_over start = refl
run_hands_over (next run s e) = rw e (Step-taken s ∙ ap (λ l. l ++ enqueued s) (run_hands_over run))

-- Rows in the buffer have a timer that will flush them.
abbrev pub IsTimed : Writer → Type 0
IsTimed w = w.buffer ≢ [] → w.timer ≡ true

-- The timer does not go off while a write is in flight.
abbrev pub IsPrompt : {sizes : Sizes} {w w' : Writer} → Step sizes w w' → Type 0
IsPrompt {w} (fires _ e) = w.flushing ≡ false
IsPrompt _ = Unit

flush-IsTimed : (w : Writer) → IsTimed w → IsTimed (flush w)
unfolding flush
flush-IsTimed w h ne = ground (arith, h)

buffered-IsTimed :
    (row : DeliveryLog) (w : Writer)
    → 2 ≤ length (w.buffer ++ row ∷ [])
    → IsTimed w
    → IsTimed (flush (record w { buffer = w.buffer ++ row ∷ [] }))
buffered-IsTimed row w two h =
    let filled : w.buffer ≢ [] =
      λ e. omega (arith, ap (λ (b : List DeliveryLog). length (b ++ row ∷ [])) e) in
    flush-IsTimed (record w { buffer = w.buffer ++ row ∷ [] }) (λ _. h filled)

enqueue-IsTimed :
    (sizes : Sizes) (row : DeliveryLog) (w : Writer)
    → 2 ≤ sizes.batch_size
    → 2 ≤ sizes.max_buffer
    → IsTimed w
    → IsTimed (enqueue sizes row w)
unfolding enqueue
enqueue-IsTimed sizes row w b m h = elim (Bool-cases (leb sizes.batch_size size)) [
  | inl full ↦ rw (full, enqueue) (buffered-IsTimed row w (ground arith) h)
  | inr short ↦ elim (Bool-cases (leb sizes.max_buffer size)) [
    | inl full ↦ rw (short, full, enqueue) (buffered-IsTimed row w (ground arith) h)
    | inr room ↦ rw (short, room, enqueue) (λ _. refl)
  ]
]
  where
    size : ℕ
    size = length (w.buffer ++ row ∷ [])

-- With buffers of two rows or more, and a timer that does not go off during a write, a step leaves
-- no rows in the buffer without a timer, if there were none before.
pub Step-IsTimed :
    {sizes : Sizes} {w w' : Writer} (s : Step sizes w w')
    → 2 ≤ sizes.batch_size
    → 2 ≤ sizes.max_buffer
    → IsPrompt s
    → IsTimed w
    → IsTimed w'
unfolding flush timer_fires inserted insert_failed
Step-IsTimed {sizes} {w} (enqueues row e) b m p h = rw e (enqueue-IsTimed sizes row w b m h)
Step-IsTimed {w} (fires _ e) b m p h = rw e (λ ne. ground arith)
Step-IsTimed {w} (flushes e) b m p h = rw e (flush-IsTimed w h)
Step-IsTimed {w} (inserts _ e) b m p h = rw e h
Step-IsTimed {w} (fails _ e) b m p h = rw e h

-- If the timer goes off while a write is in flight, and no row comes later, the rows that had been
-- buffered meanwhile stay there with no timer and no write, whether the write succeeds or fails.
pub timer_during_flush :
    (w : Writer)
    → w.flushing ≡ true
    → ((inserted (timer_fires w)).buffer ≡ w.buffer)
      × ((inserted (timer_fires w)).timer ≡ false)
      × ((inserted (timer_fires w)).flushing ≡ false)
      × ((insert_failed (timer_fires w)).buffer ≡ w.buffer)
      × ((insert_failed (timer_fires w)).timer ≡ false)
      × ((insert_failed (timer_fires w)).flushing ≡ false)
unfolding inserted insert_failed timer_fires
timer_during_flush w h = ground arith
