-- ===== src/Batch/Flushing.antt =====
-- What src/modules/delivery/batch-delivery.service.ts makes of a buffer.
use webhook_backend.Prelude.{
  ℕ, ◌<◌, ◌≡◌, refl, ap, ◌∙◌, inl, inr, Option, some, none, List, [], ◌∷◌, length, find_by_id,
  find_by_id-delete_key, delete_key, leb, arith, Bool-cases,
}
use mathlib.Core.Option
use webhook_backend.Batch.{
  BatchEndpoint, Store, Network, live_ids, buffered, push_id, is_success, request_for, send_batch,
  flush_ids, flush_batch, add_to_batch,
}

-- No buffer is left where one is taken, and the others stay.
buffered-deleted :
    (now k : ℕ) (s : Store) → buffered now k (record s { buffers = delete_key k s.buffers }) ≡ []
buffered-deleted now k s = ground (arith, find_by_id-delete_key k k s.buffers)

send_batch-buffers :
    (net : Network) (now id first : ℕ) (ids : List ℕ) (e : Option BatchEndpoint) (s : Store)
    → (send_batch net now id first ids e s).buffers ≡ s.buffers
send_batch-buffers net now id first ids none s = refl
send_batch-buffers net now id first ids (some e) s = elim (Bool-cases (net.is_safe e.url)) [
  | inl safe ↦ elim (Bool-cases (is_success (net.post (request_for ids e s)))) [
    | inl good ↦ rw (safe, good) refl
    | inr bad ↦ rw (safe, bad) refl
  ]
  | inr unsafe ↦ rw unsafe refl
]

flush_ids-empties :
    (net : Network) (now id : ℕ) (ids : List ℕ) (s : Store)
    → buffered now id s ≡ ids
    → buffered now id (flush_ids net now id ids s) ≡ []
flush_ids-empties net now id [] s h = h
flush_ids-empties net now id (first ∷ ids) s h =
    let taken : Store = record s { buffers = delete_key id s.buffers } in
    ap (λ b. live_ids now (find_by_id id b))
      (send_batch-buffers net now id first (first ∷ ids) (find_by_id id s.endpoints) taken)
    ∙ buffered-deleted now id s

-- After a flush the endpoint has no buffer, whatever became of the request.
pub flush_batch-empties :
    (net : Network) (now id : ℕ) (s : Store) → buffered now id (flush_batch net now id s) ≡ []
unfolding flush_batch
flush_batch-empties net now id s = flush_ids-empties net now id (buffered now id s) s refl

-- However full the buffer was, fewer ids than the maximum, if it is above zero, are in it after
-- another one came.
pub add_to_batch-lt :
    (net : Network) (now id e window max_size : ℕ) (s : Store)
    → 0 < max_size
    → length (buffered now id (add_to_batch net now id e window max_size s)) < max_size
unfolding add_to_batch
add_to_batch-lt net now id e window max_size s h =
    let pushed = push_id now id e window s in
    elim (Bool-cases (leb max_size (length (buffered now id pushed)))) [
      | inl full ↦ rw (full, flush_batch-empties net now id pushed) h
      | inr room ↦ rw room (ground (arith, room))
    ]
