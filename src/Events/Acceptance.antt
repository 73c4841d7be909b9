-- ===== src/Events/Acceptance.antt =====
-- What `send` of src/modules/events/events.service.ts does with an event, and that sending it again
-- does nothing.
use Prim.Native.String.{String}
use text.Mathlib.Text.{◌==◌ as str_eq}
use webhook_backend.Prelude.{
  ℕ, zero, suc, any, ◌≡◌, ◌⊎◌, inl, inr, refl, sym, ltb, ◌==◌, ◌&&◌, ap, ◌∙◌, if-true, Bool, true,
  false, some, none, List, [], ◌∷◌, Collection, ok, err, Exception, arith, bind-ok, ◌+◌, ◌*◌,
  Bool-cases, Option-cases,
}
use webhook_backend.Events.{
  StoredEvent, DedupEntry, DeliverJob, Store, Outside, add_job, has_key, find_by_key, is_taken,
  create_event,
}
use webhook_backend.Events.Sending.{
  SendArgs, created, duplicate, deduplicated, quota_of, is_over, bull_priority, key_of, window_of,
  is_within_window, is_entry, new_event, store_and_queue, send_unless_duplicate, send,
}
use text.Mathlib.TextPositions.{eq_refl}
use webhook_backend.Delivery.Documents.{pending}
use webhook_backend.PayloadCrypto.{text_or}

abbrev pub new_job : SendArgs → DeliverJob
new_job a = record {
  event_id = a.id;
  request_id = a.request_id;
  priority = some (bull_priority (text_or a.priority "p2"));
}

-- The month's quota is used up.
abbrev pub is_over_quota : {Key : Type 0} → Outside Key → SendArgs → Store → Bool
is_over_quota out a s =
    is_over a.project_id (out.month_start a.now) (quota_of a.user_id s.quotas) s.events

-- What stands for the event in the deduplication window: its key, or the hash of its payload.
abbrev pub window_hash : {Key : Type 0} → Outside Key → SendArgs → String
window_hash out a = out.sha256 (text_or a.idempotency_key (out.sha256 (out.stringify a.payload)))

-- There is a window, and in it the endpoint got an event with the same key or payload.
abbrev pub is_deduplicated : {Key : Type 0} → Outside Key → SendArgs → Store → Bool
is_deduplicated out a s =
    ltb 0 (window_of out a)
    && any
        (λ d.
          d.project_id == a.project_id
          && d.endpoint_id == a.endpoint_id
          && str_eq d.hash (window_hash out a)
          && ltb a.now d.expires_at)
        s.dedup

-- One of the four priorities, or none.
abbrev pub has_priority : SendArgs → Bool
has_priority a = any (str_eq (text_or a.priority "p2")) ("p0" ∷ "p1" ∷ "p2" ∷ "p3" ∷ [])

-- A new event: the month's quota allows it, no event of the endpoint has its key, it is stored, and
-- a job for it is queued, unless the queue refuses, which is an error that comes after the event is
-- stored; and nothing like it is in the window, and its priority is one of the four.
abbrev pub Stores : {Key : Type 0} → Outside Key → SendArgs → Store → Type 0
Stores out a s =
    let (r, s') = send out a s in
    (is_over_quota out a s ≡ false)
    × (find_by_key (key_of out a) a.endpoint_id s.events ≡ none)
    × (s'.events ≡ (a.id, new_event out a s) ∷ s.events)
    × (((s.queue_up ≡ true) × (r ≡ ok (created a.id)) × (s'.jobs ≡ new_job a ∷ s.jobs))
        ⊎ ((s.queue_up ≡ false) × (r ≡ err Exception.unavailable) × (s'.jobs ≡ s.jobs)))
    × (is_deduplicated out a s ≡ false)
    × (has_priority a ≡ true)

-- Nothing is stored, and nothing is queued, for the first of these reasons that holds.
abbrev pub Declines : {Key : Type 0} → Outside Key → SendArgs → Store → Type 0
Declines out a s =
    let (r, s') = send out a s in
    (s'.events ≡ s.events)
    × (s'.jobs ≡ s.jobs)
    × (((is_over_quota out a s ≡ true) × (r ≡ err Exception.forbidden))
        ⊎ ((is_over_quota out a s ≡ false)
            × ((old : ℕ × StoredEvent) × (find_by_key (key_of out a) a.endpoint_id s.events
                  ≡ some old)
                × (r ≡ ok (duplicate old.0 old.1.status))))
        ⊎ ((is_over_quota out a s ≡ false)
            × (find_by_key (key_of out a) a.endpoint_id s.events ≡ none)
            × (((is_deduplicated out a s ≡ true) × (r ≡ ok (deduplicated (window_of out a))))
                ⊎ ((is_deduplicated out a s ≡ false)
                    × (has_priority a ≡ false)
                    × (r ≡ err Exception.bad_request)))))

module _ {Key : Type 0} (out : Outside Key) where
  is_taken-find :
      (new : StoredEvent) (events : Collection StoredEvent)
      → find_by_key new.idempotency_key new.endpoint_id events ≡ none
      → is_taken new events ≡ false
  is_taken-find new [] h = refl
  is_taken-find new ((id, e) ∷ events) h = ground (arith, is_taken-find new events)

  -- The deduplication window answers, and writes nothing but its own entries.
  window-lem :
      (a : SendArgs) (w : ℕ) (s : Store)
      → (b : Bool) × (d : List DedupEntry) × (is_within_window out a w s
          ≡ (ok b, record s { dedup = d }))
        × (b ≡ (
            ltb 0 w && any (is_entry a.project_id a.endpoint_id (window_hash out a) a.now) s.dedup))
  window-lem a zero s = (false, s.dedup, refl, refl)
  window-lem a (suc w) s = elim (Bool-cases known) [
    | inl old ↦ (true, s.dedup, rw old refl, ground (arith, old))
    | inr new ↦ (false, entry ∷ s.dedup, rw new refl, ground (arith, new))
  ]
    where
      hash : String
      hash = out.sha256 (text_or a.idempotency_key (out.sha256 (out.stringify a.payload)))

      known : Bool
      known = any (is_entry a.project_id a.endpoint_id hash a.now) s.dedup

      entry : DedupEntry
      entry = record {
        project_id = a.project_id;
        endpoint_id = a.endpoint_id;
        hash = hash;
        expires_at = a.now + suc w * 1_000;
      }

  send-new :
      (a : SendArgs) (s s2 : Store) {b : Bool}
      → is_over a.project_id (out.month_start a.now) (quota_of a.user_id s.quotas) s.events ≡ false
      → find_by_key (key_of out a) a.endpoint_id s.events ≡ none
      → is_within_window out a (window_of out a) s ≡ (ok b, s2)
      → send out a s ≡ send_unless_duplicate out a b s2
  unfolding send
  send-new a s s2 room new asked =
      rw (room, new)
        (bind-ok (is_within_window out a (window_of out a)) (send_unless_duplicate out a) asked)

  store_and_queue-lem :
      (a : SendArgs) (s : Store)
      → has_priority a ≡ true
      → is_taken (new_event out a s) s.events ≡ false
      → let (r, s') = store_and_queue out a s in
        (s'.events ≡ (a.id, new_event out a s) ∷ s.events)
        × (((s.queue_up ≡ true) × (r ≡ ok (created a.id)) × (s'.jobs ≡ new_job a ∷ s.jobs))
            ⊎ ((s.queue_up ≡ false) × (r ≡ err Exception.unavailable) × (s'.jobs ≡ s.jobs)))
  unfolding create_event add_job
  store_and_queue-lem a s fits free = elim (Bool-cases s.queue_up) [
    | inl up ↦ (ground arith, inl (ground arith))
    | inr down ↦ (ground arith, inr (ground arith))
  ]

  store_and_queue-unfit :
      (a : SendArgs) (s : Store)
      → has_priority a ≡ false
      → store_and_queue out a s ≡ (err Exception.bad_request, s)
  store_and_queue-unfit a s unfit = ground (arith, unfit)

  pub send-cases : (a : SendArgs) (s : Store) → Stores out a s ⊎ Declines out a s
  unfolding send
  send-cases a s =
      elim (Bool-cases
        (is_over a.project_id (out.month_start a.now) (quota_of a.user_id s.quotas) s.events)) [
          | inl over ↦ inr (rw over (refl, refl, inl (refl, refl)))
          | inr room ↦ elim (Option-cases (find_by_key (key_of out a) a.endpoint_id s.events)) [
            | inr (old, found) ↦
                inr (rw (room, found) (refl, refl, inr (inl (refl, (old, refl, refl)))))
            | inl new ↦
                let (b, d, asked, is) = window-lem a (window_of out a) s in
                elim (Bool-cases b) [
                  | inl dup ↦ inr (
                      rw (send-new a s _ room new asked, dup)
                        (refl, refl, inr (inr (room, new, inl (sym is ∙ dup, refl)))))
                  | inr fresh ↦ elim (Bool-cases (has_priority a)) [
                    | inl fits ↦
                        let (stored, queued) =
                          store_and_queue-lem a (record s { dedup = d }) fits
                            (is_taken-find (new_event out a s) s.events new) in
                        inl (
                          rw (send-new a s _ room new asked, fresh)
                            (room, new, stored, queued, sym is ∙ fresh, fits))
                    | inr unfit ↦ inr (
                        rw
                          (
                            send-new a s _ room new asked,
                            fresh,
                            store_and_queue-unfit a (record s { dedup = d }) unfit,
                          )
                          (refl, refl, inr (inr (room, new, inr (sym is ∙ fresh, unfit, refl)))))
                  ]
                ]
          ]
        ]

  send-known :
      (b : SendArgs) (s : Store) {i : ℕ} {e : StoredEvent}
      → is_over b.project_id (out.month_start b.now) (quota_of b.user_id s.quotas) s.events ≡ false
      → find_by_key (key_of out b) b.endpoint_id s.events ≡ some (i, e)
      → send out b s ≡ (ok (duplicate i e.status), s)
  unfolding send
  send-known b s room found = rw (room, found) refl

  find_by_key-new :
      (a : SendArgs) (s s' : Store) {key : String} {endpoint : ℕ}
      → key ≡ key_of out a
      → endpoint ≡ a.endpoint_id
      → s'.events ≡ (a.id, new_event out a s) ∷ s.events
      → find_by_key key endpoint s'.events ≡ some (a.id, new_event out a s)
  find_by_key-new a s s' k e stored =
      rw (stored, k, e)
        (if-true {b = has_key (key_of out a) a.endpoint_id (new_event out a s)} _
          (ground (arith, eq_refl (key_of out a))))

  -- Sending again with the key of an event that was accepted, to the same endpoint and within the
  -- quota, answers that event, which is still pending, and changes nothing.
  pub send_again :
      (a b : SendArgs) (s : Store)
      → (send out a s).0 ≡ ok (created a.id)
      → key_of out b ≡ key_of out a
      → b.endpoint_id ≡ a.endpoint_id
      → let s' = (send out a s).1 in
        is_over b.project_id (out.month_start b.now) (quota_of b.user_id s'.quotas) s'.events
          ≡ false
        → send out b s' ≡ (ok (duplicate a.id pending), s')
  send_again a b s was k e room = elim (send-cases a s) [
    | inl (_, _, stored, _, _, _) ↦
        send-known b (send out a s).1 room (find_by_key-new a s (send out a s).1 k e stored)
    | inr (_, _, declined) ↦ absurd (ground (arith))
  ]

  -- When the queue refuses the job of a new event, the caller gets an error, but the event stays:
  -- sending again with its key, once the queue is back and within the quota, answers that it is a
  -- duplicate, and still no job is queued for it.
  pub send_lost :
      (a b : SendArgs) (s : Store)
      → (send out a s).0 ≡ err Exception.unavailable
      → key_of out b ≡ key_of out a
      → b.endpoint_id ≡ a.endpoint_id
      → let s' = record (send out a s).1 { queue_up = true } in
        is_over b.project_id (out.month_start b.now) (quota_of b.user_id s'.quotas) s'.events
          ≡ false
        → ((send out b s').0 ≡ ok (duplicate a.id pending)) × ((send out b s').1.jobs ≡ s.jobs)
  send_lost a b s was k e room = elim (send-cases a s) [
    | inl (_, _, stored, inl (_, fine, _), _, _) ↦ absurd (ground arith)
    | inl (_, _, stored, inr (_, _, unqueued), _, _) ↦
        let s' : Store = record (send out a s).1 { queue_up = true } in
        let known = send-known b s' room (find_by_key-new a s s' k e stored) in
        (ap (λ p. p.0) known, ap (λ p. p.1.jobs) known ∙ unqueued)
    | inr (_, _, declined) ↦ absurd (ground arith)
  ]
