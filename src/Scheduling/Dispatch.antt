-- ===== src/Scheduling/Dispatch.antt =====
-- What a run of `dispatchDueEvents` of src/modules/scheduling/scheduling.service.ts does with an
-- event that is due, and with one that it cannot store.
use Prim.Native.String.{String}
use text.Mathlib.Text.{◌==◌ as str_eq}
use webhook_backend.Prelude.{
  List, take, find_many, leb, ◌&&◌, ℕ, ◌≡◌, ◌⊎◌, inl, inr, refl, sym, ap, ◌∙◌, if-false, true,
  false, some, none, [], ◌∷◌, All, Collection, find_by_id, ok, Action, ◌>>◌, bind-ok, bind-err,
  Result, err, Exception, modify, arith, Bool-cases,
}
use webhook_backend.Events.{
  DeliverJob, ScheduledEvent, Store, Outside, add_job, add_job-up, add_job-down, is_taken,
  StoredEvent, has_key, find_by_key, create_event, create_event-free, create_event-taken,
}
use webhook_backend.PayloadCrypto as PayloadCrypto
use webhook_backend.Events.Sending.{bull_priority}
use webhook_backend.Scheduling.{
  Tick, is_active, is_pending, fail_event, queue_event, update_scheduled, dispatched_event,
  dispatch_one, dispatch_active, dispatch_if_active, dispatch_each, due_events, dispatch_due_events,
}

module _ {Key : Type 0} (out : Outside Key) (tick : Tick) where
  abbrev pub dispatch_job : (id : ℕ) → ScheduledEvent → DeliverJob
  dispatch_job id e = record {
    event_id = tick.event_id id;
    request_id = none;
    priority = some (bull_priority e.priority);
  }

  -- The endpoint is gone or not active: the scheduled event fails.
  abbrev pub Fails : (id : ℕ) → ScheduledEvent → Store → Type 0
  Fails id e s =
      (is_active (find_by_id e.endpoint_id s.endpoints) ≡ false)
      × ((dispatch_one out tick id e s).1 ≡ update_scheduled id (fail_event tick.now) s)

  -- One event is made, and one job for it; the scheduled event is queued.
  abbrev pub Queues : (id : ℕ) → ScheduledEvent → Store → Type 0
  Queues id e s =
      let event = dispatched_event out tick id e s in
      (is_taken event s.events ≡ false)
      × (s.queue_up ≡ true)
      × ((dispatch_one out tick id e s).1
          ≡ update_scheduled id (queue_event tick.now (tick.event_id id)) (record s {
            events = (tick.event_id id, event) ∷ s.events;
            jobs = dispatch_job id e ∷ s.jobs;
          }))

  -- The endpoint has an event of this key already: nothing happens at all.
  abbrev pub Sticks : (id : ℕ) → ScheduledEvent → Store → Type 0
  Sticks id e s =
      (is_taken (dispatched_event out tick id e s) s.events ≡ true)
      × ((dispatch_one out tick id e s).1 ≡ s)

  -- The queue refuses: the event is made, without a job, and the scheduled event stays as it is.
  abbrev pub Strands : (id : ℕ) → ScheduledEvent → Store → Type 0
  Strands id e s =
      let event = dispatched_event out tick id e s in
      (is_taken event s.events ≡ false)
      × (s.queue_up ≡ false)
      × ((dispatch_one out tick id e s).1
          ≡ record s { events = (tick.event_id id, event) ∷ s.events })

  abbrev after_event : (id : ℕ) → ScheduledEvent → Action Store (Unit {0})
  after_event id e =
      add_job (dispatch_job id e)
      >> modify (update_scheduled id (queue_event tick.now (tick.event_id id)))

  dispatch_active-taken :
      (id : ℕ) (e : ScheduledEvent) (s : Store)
      → is_taken (dispatched_event out tick id e s) s.events ≡ true
      → dispatch_active out tick id e s ≡ (err Exception.duplicate_key, s)
  dispatch_active-taken id e s taken =
      bind-err (create_event (tick.event_id id) (dispatched_event out tick id e s))
        (λ _. after_event id e) (create_event-taken _ _ s taken)

  dispatch_active-free :
      (id : ℕ) (e : ScheduledEvent) (s : Store)
      → is_taken (dispatched_event out tick id e s) s.events ≡ false
      → dispatch_active out tick id e s
        ≡ after_event id e
            (record s { events = (tick.event_id id, dispatched_event out tick id e s) ∷ s.events })
  dispatch_active-free id e s free =
      bind-ok (create_event (tick.event_id id) (dispatched_event out tick id e s))
        (λ _. after_event id e) (create_event-free _ _ s free)

  dispatch_one-active :
      (id : ℕ) (e : ScheduledEvent) (s : Store) {r : Result (Unit {0}) × Store}
      → is_active (find_by_id e.endpoint_id s.endpoints) ≡ true
      → dispatch_active out tick id e s ≡ r
      → dispatch_one out tick id e s ≡ (ok tt, r.1)
  unfolding dispatch_one
  dispatch_one-active id e s on h =
      ap (λ b. (ok tt, (dispatch_if_active out tick id e b s).1)) on ∙ ap (λ p. (ok tt, p.1)) h

  -- A round of the loop has one of four outcomes: the scheduled event fails, for want of an active
  -- endpoint; or it is queued, with one new event and one job; or it sticks, as it was, because the
  -- endpoint has an event of its key; or the new event is stored and the queue refuses its job.
  pub dispatch_one-cases :
      (id : ℕ) (e : ScheduledEvent) (s : Store)
      → Fails id e s ⊎ Queues id e s ⊎ Sticks id e s ⊎ Strands id e s
  unfolding dispatch_one
  dispatch_one-cases id e s = elim (Bool-cases (is_active (find_by_id e.endpoint_id s.endpoints))) [
    | inr off ↦ inl (off, ap (λ b. (dispatch_if_active out tick id e b s).1) off)
    | inl on ↦ elim (Bool-cases (is_taken (dispatched_event out tick id e s) s.events)) [
      | inl taken ↦ inr (
          inr (
            inl (
              taken,
              ap (λ p. p.1) (dispatch_one-active id e s on (dispatch_active-taken id e s taken)),
            )))
      | inr free ↦
          let made : Store = record s {
            events = (tick.event_id id, dispatched_event out tick id e s) ∷ s.events;
          } in
          let active = dispatch_active-free id e s free in
          elim (Bool-cases s.queue_up) [
            | inl up ↦ inr (
                inl (
                  free,
                  up,
                  ap (λ p. p.1)
                      (dispatch_one-active id e s on (
                        active
                        ∙ bind-ok (add_job (dispatch_job id e))
                            (λ _.
                              modify
                                (update_scheduled id (queue_event tick.now (tick.event_id id))))
                            (add_job-up _ made up))),
                ))
            | inr down ↦ inr (
                inr (
                  inr (
                    free,
                    down,
                    ap (λ p. p.1)
                        (dispatch_one-active id e s on (
                          active
                          ∙ bind-err (add_job (dispatch_job id e))
                              (λ _.
                                modify
                                  (update_scheduled id (queue_event tick.now (tick.event_id id))))
                              (add_job-down _ made down))),
                  )))
          ]
    ]
  ]

  -- An event that its endpoint cannot store again: an active endpoint has one of its key.
  abbrev pub IsStuck : Store → ℕ × ScheduledEvent → Type 0
  IsStuck s (id, e) =
      (is_active (find_by_id e.endpoint_id s.endpoints) ≡ true)
      × (is_taken (dispatched_event out tick id e s) s.events ≡ true)

  dispatch_one-IsStuck :
      (id : ℕ) (e : ScheduledEvent) (s : Store)
      → IsStuck s (id, e)
      → dispatch_one out tick id e s ≡ (ok tt, s)
  dispatch_one-IsStuck id e s (on, taken) =
      dispatch_one-active id e s on (dispatch_active-taken id e s taken)

  dispatch_each-IsStuck :
      (batch : Collection ScheduledEvent) (s : Store)
      → All (IsStuck s) batch
      → dispatch_each out tick batch s ≡ (ok tt, s)
  dispatch_each-IsStuck [] s h = refl
  dispatch_each-IsStuck ((id, e) ∷ batch) s (stuck, h) =
      bind-ok (dispatch_one out tick id e) (λ _. dispatch_each out tick batch)
        (dispatch_one-IsStuck id e s stuck)
      ∙ dispatch_each-IsStuck batch s h

module _ {Key : Type 0} (out : Outside Key) where
  -- The active endpoint has an event of the scheduled event's own key.
  abbrev pub IsBlocked : Store → ℕ × ScheduledEvent → Type 0
  IsBlocked s (id, e) =
      (is_active (find_by_id e.endpoint_id s.endpoints) ≡ true)
      × ((key : String) × (e.idempotency_key ≡ some key)
          × (str_eq key "" ≡ false)
          × ((old : ℕ × StoredEvent) × (find_by_key key e.endpoint_id s.events ≡ some old)))

  is_taken-found :
      (new : StoredEvent) (events : Collection StoredEvent) {old : ℕ × StoredEvent}
      → find_by_key new.idempotency_key new.endpoint_id events ≡ some old
      → is_taken new events ≡ true
  is_taken-found new [] h = absurd (cc h)
  is_taken-found new ((id, e) ∷ events) {old = o} h =
      elim (Bool-cases (has_key new.idempotency_key new.endpoint_id e)) [
        | inl same ↦ rw same refl
        | inr other ↦ ground (
          arith,
          is_taken-found new events {old = o}
              (sym (if-false {b = has_key new.idempotency_key new.endpoint_id e} _ other) ∙ h),
        )
      ]

  blocked-IsStuck :
      (tick : Tick) (s : Store) (d : ℕ × ScheduledEvent) → IsBlocked s d → IsStuck out tick s d
  blocked-IsStuck tick s (id, e) (on, (key, named, text, (old, found))) = (
    on,
    is_taken-found (dispatched_event out tick id e s) s.events
        (ap (λ k. find_by_key k e.endpoint_id s.events) own ∙ found),
  )
    where
      own : PayloadCrypto.text_or e.idempotency_key (tick.sched_key id) ≡ key
      own =
          ap (λ o. PayloadCrypto.text_or o (tick.sched_key id)) named
          ∙ if-false {b = str_eq key ""} _ text

  blocked-All :
      (tick : Tick) (s : Store) (batch : Collection ScheduledEvent)
      → All (IsBlocked s) batch
      → All (IsStuck out tick s) batch
  blocked-All tick s [] h = tt
  blocked-All tick s (d ∷ batch) (b, h) = (blocked-IsStuck tick s d b, blocked-All tick s batch h)

  -- Runs of `dispatchDueEvents`, one after the other.
  abbrev pub dispatch_runs : List Tick → Store → Store
  dispatch_runs [] s = s
  dispatch_runs (tick ∷ ticks) s = dispatch_runs ticks (dispatch_due_events out tick s).1

  -- When the first hundred of the pending events that are due cannot be stored, because their active
  -- endpoints have events of their keys already, nothing changes, however many runs follow, as long as
  -- this is so at each of them: what is due behind the hundred is never reached.
  pub dispatch_runs-blocked :
      (ticks : List Tick) (s : Store)
      → All
          (λ tick. All (IsBlocked s) (
            take 100 (
              find_many
                (λ e. is_pending e.status && leb e.scheduled_for tick.now)
                s.scheduled_events)))
          ticks
      → dispatch_runs ticks s ≡ s
  unfolding dispatch_due_events
  dispatch_runs-blocked [] s h = refl
  dispatch_runs-blocked (tick ∷ ticks) s (blocked, h) =
      ap (λ p. dispatch_runs ticks p.1)
        (dispatch_each-IsStuck out tick (due_events out tick s) s
          (blocked-All tick s (due_events out tick s) blocked))
      ∙ dispatch_runs-blocked ticks s h
