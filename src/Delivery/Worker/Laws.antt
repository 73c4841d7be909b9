-- ===== src/Delivery/Worker/Laws.antt =====
-- What the periodic jobs leave alone, and the bound on the table of breakers.
use webhook_backend.Prelude.{
  ℕ, suc, zero, ◌-◌, ◌*◌, ◌≤◌, ◌<◌, ◌≡◌, ◌≢◌, ◌⊎◌, inl, inr, Bool, true, false, some, List, [], ◌∷◌,
  ◌++◌, length, take, All, Collection, find_by_id, delete_many, find_many, arith, length-append,
  Bool-cases, Option-cases, is_some,
}
use webhook_backend.Delivery.Documents.{WebhookEvent, retrying, Job}
use webhook_backend.Delivery.World.{World, Env, IsQueue, knows_id}
use webhook_backend.Delivery.Worker.{
  is_due_event, due_events, reschedule_all, reschedule_failed_events, is_old_dead,
  purge_old_dlq_events, max_breakers, drop_first_closed, drop_first, make_room, get_breaker,
}

drop_first_closed-le : (bs : Collection Bool) → length (drop_first_closed bs) ≤ length bs
drop_first_closed-le [] = omega arith
drop_first_closed-le ((id, closed) ∷ bs) = ground (arith, drop_first_closed-le bs)

drop_first-length : (bs : Collection Bool) → length (drop_first bs) ≡ length bs - 1
drop_first-length [] = omega arith
drop_first-length (b ∷ bs) = omega arith

make_room-lt :
    (bs : Collection Bool) → length bs ≤ max_breakers → length (make_room bs) < max_breakers
make_room-lt bs h =
    ground (arith, drop_first_closed-le bs, drop_first-length (drop_first_closed bs))

find-append :
    (id : ℕ) (bs : Collection Bool) → is_some (find_by_id id (bs ++ (id, true) ∷ [])) ≡ true
find-append id [] = ground arith
find-append id ((j, b) ∷ bs) = ground (arith, find-append id bs)

-- A table of at most a thousand local breakers still has at most a thousand after a request for one,
-- and holds the one that was asked for.
pub get_breaker-le :
    (id : ℕ) (bs : Collection Bool)
    → length bs ≤ max_breakers
    → (length (get_breaker id bs) ≤ max_breakers)
      × (is_some (find_by_id id (get_breaker id bs)) ≡ true)
unfolding get_breaker
get_breaker-le id bs h = elim (Option-cases (find_by_id id bs)) [
  | inl absent ↦ ground (
    arith,
    make_room-lt bs h,
    length-append (make_room bs) ((id, true) ∷ []),
    find-append id (make_room bs),
  )
  | inr (b, found) ↦ ground arith
]

-- Every entry of the collection under `id` is retrying.
abbrev pub IsRetrying : ℕ → Collection WebhookEvent → Type 0
IsRetrying id events = All (λ p. (p.0 ≢ id) ⊎ (p.1.status ≡ retrying)) events

-- No job delivers event `id`.
abbrev pub HasNoJob : ℕ → List Job → Type 0
HasNoJob id jobs = All (λ j. j.event_id ≢ id) jobs

due-other :
    (id now : ℕ) (events : Collection WebhookEvent)
    → IsRetrying id events
    → All (λ p. p.0 ≢ id) (find_many (is_due_event now) events)
due-other id now [] h = tt
due-other id now ((j, e) ∷ events) (inl ne, h) = ground (arith, due-other id now events h)
due-other id now ((j, e) ∷ events) (inr r, h) = ground (arith, due-other id now events h)

take-All :
    (P : ℕ × WebhookEvent → Type 0) (n : ℕ) (xs : Collection WebhookEvent)
    → All P xs
    → All P (take n xs)
take-All P zero xs h = tt
take-All P (suc n) [] h = tt
take-All P (suc n) (x ∷ xs) (p, h) = (p, take-All P n xs h)

add_job-HasNoJob :
    {add_job : Job → List Job → List Job} (q : IsQueue add_job) (id : ℕ) (j : Job) (jobs : List Job)
    → j.event_id ≢ id
    → HasNoJob id jobs
    → HasNoJob id (add_job j jobs)
add_job-HasNoJob q id j jobs ne h = elim (Bool-cases (knows_id j.id jobs)) [
  | inl known ↦ rw (q.ignores j jobs known) h
  | inr fresh ↦ rw (q.adds j jobs fresh) (ne, h)
]

reschedule_all-HasNoJob :
    (env : Env) (clock : ℕ → ℕ) (id : ℕ) (events : Collection WebhookEvent) (jobs : List Job)
    → IsQueue env.add_job
    → All (λ p. p.0 ≢ id) events
    → HasNoJob id jobs
    → HasNoJob id (reschedule_all env clock events jobs)
unfolding reschedule_all
reschedule_all-HasNoJob env clock id [] jobs q h none_yet = none_yet
reschedule_all-HasNoJob env clock id ((j, e) ∷ events) jobs q (ne, h) none_yet =
    reschedule_all-HasNoJob env clock id events _ q h (add_job-HasNoJob q id _ jobs ne none_yet)

-- A run of the retry worker queues no delivery of an event that is retrying, at whatever time it
-- runs: if no job was to deliver the event before, none is afterwards.
pub reschedule_skips_retrying :
    (env : Env) (now : ℕ) (clock : ℕ → ℕ) (id : ℕ) (w : World)
    → IsQueue env.add_job
    → IsRetrying id w.events
    → HasNoJob id w.jobs
    → HasNoJob id (reschedule_failed_events env now clock w).jobs
unfolding reschedule_failed_events
reschedule_skips_retrying env now clock id w q h none_yet =
    reschedule_all-HasNoJob env clock id (due_events now w.events) w.jobs q
      (take-All (λ p. p.0 ≢ id) 100 (find_many (is_due_event now) w.events)
        (due-other id now w.events h))
      none_yet

delete-removes :
    (p : WebhookEvent → Bool) (events : Collection WebhookEvent)
    → All (λ e. p e.1 ≡ false) (delete_many p events)
delete-removes p [] = tt
delete-removes p ((j, e) ∷ events) = elim (Bool-cases (p e)) [
  | inl old ↦ rw old (delete-removes p events)
  | inr young ↦ rw young (young, delete-removes p events)
]

delete-keeps :
    (p : WebhookEvent → Bool) (id : ℕ) (events : Collection WebhookEvent) {e : WebhookEvent}
    → find_by_id id events ≡ some e
    → p e ≡ false
    → find_by_id id (delete_many p events) ≡ some e
delete-keeps p id [] found young = ground arith
delete-keeps p id ((j, d) ∷ events) {e} found young =
    ground (arith, delete-keeps p id events {e = e})

-- The purge leaves no event that died before the retention, and every event that did not is found
-- as before.
pub purge_old_dlq_events_lem :
    (retention_days now id : ℕ) (w : World) {e : WebhookEvent}
    → find_by_id id w.events ≡ some e
    → is_old_dead (now - retention_days * 86_400_000) e ≡ false
    → let w' = purge_old_dlq_events retention_days now w in
      All (λ p. is_old_dead (now - retention_days * 86_400_000) p.1 ≡ false) w'.events
      × (find_by_id id w'.events ≡ some e)
unfolding purge_old_dlq_events
purge_old_dlq_events_lem retention_days now id w found young = (
  delete-removes (is_old_dead (now - retention_days * 86_400_000)) w.events,
  delete-keeps (is_old_dead (now - retention_days * 86_400_000)) id w.events found young,
)
