-- ===== src/Scheduling/Runs.antt =====
-- Runs of src/modules/scheduling/scheduling.service.ts, one operation after the other.
use Prim.Native.String.{String}
use webhook_backend.Prelude.{
  ℕ, zero, suc, ◌≡◌, ◌≢◌, ◌⊎◌, inl, inr, refl, sym, ap, ◌∙◌, subst, Bool, false, Option, some, none,
  [], ◌∷◌, take, Collection, find_by_id, find_many, update_by_id, find_by_id-update_ne, ◌==◌,
  IsKeyed, Lacks, find-Lacks, find_many-Lacks, arith, Bool-cases,
}
use webhook_backend.Events.{ScheduledEvent, Store, Outside}
use webhook_backend.Scheduling.{
  Tick, ScheduleDto, UpdateDto, is_due, schedule, update, cancel, cancel_event, queue_event,
  fail_event, apply_updates, dispatch_one, dispatch_each, due_events, dispatch_due_events,
}
use webhook_backend.Scheduling.Dispatch.{dispatch_one-cases}
use webhook_backend.Scheduling.Settled.{
  IsSettled, Changes, Changes-IsSettled, update-Changes, cancel-Changes, schedule-IsSettled,
  schedule-events,
}

-- One operation. A scheduled event gets a new id.
pub data Step {Key : Type 0} (out : Outside Key) : Store → Store → Type 0 where
  schedules :
      {s : Store} (id project : ℕ) (dto : ScheduleDto) (user now : ℕ)
      → find_by_id id s.scheduled_events ≡ none
      → Step out s (schedule id project dto user now s).1
  updates :
      {s : Store} (id project : ℕ) (dto : UpdateDto) (now : ℕ)
      → Step out s (update id project dto now s).1
  cancels :
      {s : Store} (id project : ℕ) (reason : Option String) (now : ℕ)
      → Step out s (cancel id project reason now s).1
  dispatches : {s : Store} (tick : Tick) → Step out s (dispatch_due_events out tick s).1

pub data IsReachable {Key : Type 0} (out : Outside Key) (s : Store) : Store → Type 0 where
  here : IsReachable out s s
  there : {s' s'' : Store} → IsReachable out s s' → Step out s' s'' → IsReachable out s s''

find-update_none :
    (k id : ℕ) (f : ScheduledEvent → ScheduledEvent) (c : Collection ScheduledEvent)
    → find_by_id k c ≡ none
    → find_by_id k (update_by_id id f c) ≡ none
find-update_none k id f [] h = refl
find-update_none k id f ((j, e) ∷ c) h = ground (arith, find-update_none k id f c)

update-IsKeyed :
    (id : ℕ) (f : ScheduledEvent → ScheduledEvent) (c : Collection ScheduledEvent)
    → IsKeyed c
    → IsKeyed (update_by_id id f c)
update-IsKeyed id f [] h = tt
update-IsKeyed id f ((j, e) ∷ c) (fresh, h) = elim (Bool-cases (j == id)) [
  | inl hit ↦ rw hit (fresh, h)
  | inr miss ↦ rw miss (find-update_none j id f c fresh, update-IsKeyed id f c h)
]

Changes-IsKeyed :
    (id : ℕ) (f : ScheduledEvent → ScheduledEvent) (s s' : Store)
    → Changes id f s s'
    → IsKeyed s.scheduled_events
    → IsKeyed s'.scheduled_events
Changes-IsKeyed id f s s' (inl same) h =
    subst (λ (t : Store). IsKeyed t.scheduled_events) (sym same) h
Changes-IsKeyed id f s s' (inr (d, found, due, changed)) h =
    subst (λ (t : Store). IsKeyed t.scheduled_events) (sym changed)
      (update-IsKeyed id f s.scheduled_events h)

-- What is not to be found is not among what is found.
settled-Lacks :
    (k : ℕ) (p : ScheduledEvent → Bool) (n : ℕ) (c : Collection ScheduledEvent) {e : ScheduledEvent}
    → IsKeyed c
    → find_by_id k c ≡ some e
    → p e ≡ false
    → Lacks k (take n (find_many p c))
settled-Lacks k p zero c keyed found out_of = tt
settled-Lacks k p (suc n) [] keyed found out_of = tt
settled-Lacks k p (suc n) ((j, d) ∷ c) {e} (fresh, keyed) found out_of =
    elim (Bool-cases (j == k)) [
      | inl same ↦
          let miss : p d ≡ false = ground (arith, found, same, out_of) in
          rw miss (
            find_many-Lacks k p (suc n) c
              (find-Lacks k c (subst (λ i. find_by_id i c ≡ none) (ground (arith, same)) fresh)))
      | inr other ↦ elim (Bool-cases (p d)) [
        | inl hit ↦ rw hit (
          ground (arith, other),
          settled-Lacks k p n c keyed (ground (arith, found, other)) out_of,
        )
        | inr miss ↦
            rw miss (settled-Lacks k p (suc n) c keyed (ground (arith, found, other)) out_of)
      ]
    ]

module _ {Key : Type 0} (out : Outside Key) (tick : Tick) where
  -- A round of the loop changes the one scheduled event, if any.
  dispatch_one-scheduled :
      (id : ℕ) (e : ScheduledEvent) (s : Store)
      → let c' = (dispatch_one out tick id e s).1.scheduled_events in
        (c' ≡ s.scheduled_events)
        ⊎ ((f : ScheduledEvent → ScheduledEvent) × (c' ≡ update_by_id id f s.scheduled_events))
  dispatch_one-scheduled id e s = elim (dispatch_one-cases out tick id e s) [
    | inl (_, fails) ↦ inr (fail_event tick.now, ap (λ t. t.scheduled_events) fails)
    | inr (inl (_, _, queues)) ↦
        inr (queue_event tick.now (tick.event_id id), ap (λ t. t.scheduled_events) queues)
    | inr (inr (inl (_, sticks))) ↦ inl (ap (λ t. t.scheduled_events) sticks)
    | inr (inr (inr (_, _, strands))) ↦ inl (ap (λ t. t.scheduled_events) strands)
  ]

  dispatch_one-keeps :
      (id : ℕ) (e : ScheduledEvent) (s : Store) (k : ℕ)
      → id ≢ k
      → find_by_id k (dispatch_one out tick id e s).1.scheduled_events
        ≡ find_by_id k s.scheduled_events
  dispatch_one-keeps id e s k ne = elim (dispatch_one-scheduled id e s) [
    | inl same ↦ ap (find_by_id k) same
    | inr (f, changed) ↦
        ap (find_by_id k) changed ∙ find_by_id-update_ne id k f s.scheduled_events ne
  ]

  dispatch_one-IsKeyed :
      (id : ℕ) (e : ScheduledEvent) (s : Store)
      → IsKeyed s.scheduled_events
      → IsKeyed (dispatch_one out tick id e s).1.scheduled_events
  dispatch_one-IsKeyed id e s h = elim (dispatch_one-scheduled id e s) [
    | inl same ↦ subst IsKeyed (sym same) h
    | inr (f, changed) ↦ subst IsKeyed (sym changed) (update-IsKeyed id f s.scheduled_events h)
  ]

  dispatch_each-keeps :
      (batch : Collection ScheduledEvent) (s : Store) (k : ℕ)
      → Lacks k batch
      → find_by_id k (dispatch_each out tick batch s).1.scheduled_events
        ≡ find_by_id k s.scheduled_events
  unfolding dispatch_one
  dispatch_each-keeps [] s k h = refl
  dispatch_each-keeps ((id, e) ∷ batch) s k (ne, h) =
      dispatch_each-keeps batch (dispatch_one out tick id e s).1 k h
      ∙ dispatch_one-keeps id e s k ne

  dispatch_each-IsKeyed :
      (batch : Collection ScheduledEvent) (s : Store)
      → IsKeyed s.scheduled_events
      → IsKeyed (dispatch_each out tick batch s).1.scheduled_events
  unfolding dispatch_one
  dispatch_each-IsKeyed [] s h = h
  dispatch_each-IsKeyed ((id, e) ∷ batch) s h =
      dispatch_each-IsKeyed batch (dispatch_one out tick id e s).1 (dispatch_one-IsKeyed id e s h)

  dispatch-IsSettled :
      (k : ℕ) (e : ScheduledEvent) (s : Store)
      → IsKeyed s.scheduled_events
      → IsSettled k e s
      → IsSettled k e (dispatch_due_events out tick s).1
  unfolding dispatch_due_events
  dispatch-IsSettled k e s keyed (found, settled) =
      let lacks =
        settled-Lacks k (is_due tick.now) 100 s.scheduled_events keyed found
          (ground (arith, settled)) in
      (dispatch_each-keeps (due_events out tick s) s k lacks ∙ found, settled)

  dispatch-IsKeyed :
      (s : Store)
      → IsKeyed s.scheduled_events
      → IsKeyed (dispatch_due_events out tick s).1.scheduled_events
  unfolding dispatch_due_events
  dispatch-IsKeyed s h = dispatch_each-IsKeyed (due_events out tick s) s h

module _ {Key : Type 0} (out : Outside Key) where
  Step-IsKeyed :
      {s s' : Store} → Step out s s' → IsKeyed s.scheduled_events → IsKeyed s'.scheduled_events
  Step-IsKeyed {s} (schedules id project dto user now fresh) h =
      elim (schedule-events id project dto user now s) [
        | inl same ↦ subst IsKeyed (sym same) h
        | inr added ↦ subst IsKeyed (sym added) (fresh, h)
      ]
  Step-IsKeyed {s} (updates id project dto now) h =
      Changes-IsKeyed id (apply_updates dto) s _ (update-Changes id project dto now s) h
  Step-IsKeyed {s} (cancels id project reason now) h =
      Changes-IsKeyed id (cancel_event now reason) s _ (cancel-Changes id project reason now s) h
  Step-IsKeyed {s} (dispatches tick) h = dispatch-IsKeyed out tick s h

  Step-IsSettled :
      {s s' : Store} (k : ℕ) (e : ScheduledEvent)
      → Step out s s'
      → IsKeyed s.scheduled_events
      → IsSettled k e s
      → IsSettled k e s'
  Step-IsSettled {s} k e (schedules id project dto user now fresh) keyed h =
      schedule-IsSettled id project dto user now k e s fresh h
  Step-IsSettled {s} k e (updates id project dto now) keyed h =
      Changes-IsSettled id (apply_updates dto) k e s _ (update-Changes id project dto now s) h
  Step-IsSettled {s} k e (cancels id project reason now) keyed h =
      Changes-IsSettled id (cancel_event now reason) k e s _
        (cancel-Changes id project reason now s) h
  Step-IsSettled {s} k e (dispatches tick) keyed h = dispatch-IsSettled out tick k e s keyed h

  -- A scheduled event that is no longer pending (it was queued, it failed, or it was cancelled) stays
  -- exactly as it is, with the event that was made of it and its dates, whatever operations follow one
  -- after the other, from a store in which ids are unique; and ids stay unique.
  pub reachable-IsSettled :
      (k : ℕ) (e : ScheduledEvent) {s s' : Store}
      → IsKeyed s.scheduled_events
      → IsSettled k e s
      → IsReachable out s s'
      → IsKeyed s'.scheduled_events × IsSettled k e s'
  reachable-IsSettled k e keyed h here = (keyed, h)
  reachable-IsSettled k e keyed h (there reach step) =
      let (keyed', h') = reachable-IsSettled k e keyed h reach in
      (Step-IsKeyed step keyed', Step-IsSettled k e step keyed' h')
