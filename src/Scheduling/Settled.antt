-- ===== src/Scheduling/Settled.antt =====
-- The states of a scheduled event in src/modules/scheduling/scheduling.service.ts: only a pending
-- one ever changes, as long as no operation comes between a dispatch and its query.
use Prim.Native.String.{String}
use webhook_backend.Prelude.{
  ℕ, ◌≡◌, ◌⊎◌, inl, inr, sym, ap, ◌∙◌, subst, leb, ltb, ◌-◌, true, false, Option, some, none, ◌∷◌,
  find_by_id, find_by_id-update_ne, ◌==◌, arith, Bool-cases, Option-cases,
}
use webhook_backend.Events.{ScheduledEvent, Store}
use webhook_backend.Scheduling.{
  ScheduleDto, UpdateDto, is_pending, schedule, update, cancel, cancel_event, update_scheduled,
  apply_updates, new_scheduled, is_past, max_schedule_window_ms, scheduled_of_project,
  find_existing, endpoint_of_project,
}

-- A scheduled event that is not pending.
abbrev pub IsSettled : ℕ → ScheduledEvent → Store → Type 0
IsSettled k e s = (find_by_id k s.scheduled_events ≡ some e) × (is_pending e.status ≡ false)

-- A change of a pending event leaves a settled one as it is.
change-IsSettled :
    (id : ℕ) (f : ScheduledEvent → ScheduledEvent) (k : ℕ) (e d : ScheduledEvent) (s : Store)
    → IsSettled k e s
    → find_by_id id s.scheduled_events ≡ some d
    → is_pending d.status ≡ true
    → IsSettled k e (update_scheduled id f s)
change-IsSettled id f k e d s (found, settled) at_id due = elim (Bool-cases (id == k)) [
  | inl same ↦ absurd (ground (arith, ap (λ i. find_by_id i s.scheduled_events) (same_id same)))
  | inr other ↦
      (find_by_id-update_ne id k f s.scheduled_events (ground (arith, other)) ∙ found, settled)
]
  where
    same_id : id == k ≡ true → id ≡ k
    same_id h = ground (arith, h)

scheduled_of_project-found :
    (project : ℕ) (found : Option ScheduledEvent) {e : ScheduledEvent}
    → scheduled_of_project project found ≡ some e
    → found ≡ some e
scheduled_of_project-found project none h = ground arith
scheduled_of_project-found project (some d) h = ground arith

-- A store that is the same, or in which one event changed that was pending.
abbrev pub Changes : (id : ℕ) → (ScheduledEvent → ScheduledEvent) → Store → Store → Type 0
Changes id f s s' =
    (s' ≡ s)
    ⊎ ((d : ScheduledEvent) × (find_by_id id s.scheduled_events ≡ some d)
        × (is_pending d.status ≡ true)
        × (s' ≡ update_scheduled id f s))

pub Changes-IsSettled :
    (id : ℕ) (f : ScheduledEvent → ScheduledEvent) (k : ℕ) (e : ScheduledEvent) (s s' : Store)
    → Changes id f s s'
    → IsSettled k e s
    → IsSettled k e s'
Changes-IsSettled id f k e s s' (inl same) h = subst (IsSettled k e) (sym same) h
Changes-IsSettled id f k e s s' (inr (d, found, due, changed)) h =
    subst (IsSettled k e) (sym changed) (change-IsSettled id f k e d s h found due)

pub update-Changes :
    (id project : ℕ) (dto : UpdateDto) (now : ℕ) (s : Store)
    → Changes id (apply_updates dto) s (update id project dto now s).1
unfolding update
update-Changes id project dto now s =
    elim (Option-cases (scheduled_of_project project (find_by_id id s.scheduled_events))) [
      | inl absent ↦ inl (ground arith)
      | inr (d, mine) ↦ elim (Bool-cases (is_pending d.status)) [
        | inr over ↦ inl (ground arith)
        | inl due ↦ elim (Bool-cases (is_past dto.scheduled_for now)) [
          | inl past ↦ inl (ground arith)
          | inr fine ↦ inr (
            d,
            scheduled_of_project-found project (find_by_id id s.scheduled_events) mine,
            due,
            ground arith,
          )
        ]
      ]
    ]

pub cancel-Changes :
    (id project : ℕ) (reason : Option String) (now : ℕ) (s : Store)
    → Changes id (cancel_event now reason) s (cancel id project reason now s).1
unfolding cancel
cancel-Changes id project reason now s =
    elim (Option-cases (scheduled_of_project project (find_by_id id s.scheduled_events))) [
      | inl absent ↦ inl (ground arith)
      | inr (d, mine) ↦ elim (Bool-cases (is_pending d.status)) [
        | inr over ↦ inl (ground arith)
        | inl due ↦ inr (
          d,
          scheduled_of_project-found project (find_by_id id s.scheduled_events) mine,
          due,
          ground arith,
        )
      ]
    ]

-- `schedule` adds a new event, or nothing.
pub schedule-events :
    (id project : ℕ) (dto : ScheduleDto) (user now : ℕ) (s : Store)
    → let c' = (schedule id project dto user now s).1.scheduled_events in
      (c' ≡ s.scheduled_events) ⊎ (c' ≡ (id, new_scheduled project dto user) ∷ s.scheduled_events)
unfolding schedule
schedule-events id project dto user now s =
    elim (Option-cases (endpoint_of_project project (find_by_id dto.endpoint_id s.endpoints))) [
      | inl absent ↦ inl (ground arith)
      | inr (endpoint, mine) ↦ elim (Bool-cases (leb dto.scheduled_for now)) [
        | inl past ↦ inl (ground arith)
        | inr future ↦ elim (Bool-cases (ltb max_schedule_window_ms (dto.scheduled_for - now))) [
          | inl far ↦ inl (ground arith)
          | inr near ↦ elim (Option-cases (find_existing project dto s.scheduled_events)) [
            | inr (old, known) ↦ inl (ground arith)
            | inl new ↦ inr (ground arith)
          ]
        ]
      ]
    ]

pub schedule-IsSettled :
    (id project : ℕ) (dto : ScheduleDto) (user now k : ℕ) (e : ScheduledEvent) (s : Store)
    → find_by_id id s.scheduled_events ≡ none
    → IsSettled k e s
    → IsSettled k e (schedule id project dto user now s).1
schedule-IsSettled id project dto user now k e s fresh (found, settled) =
    elim (schedule-events id project dto user now s) [
      | inl same ↦ (ap (find_by_id k) same ∙ found, settled)
      | inr added ↦ (ap (find_by_id k) added ∙ ground arith, settled)
    ]
