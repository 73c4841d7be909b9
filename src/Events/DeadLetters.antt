-- ===== src/Events/DeadLetters.antt =====
-- `replayDlq` of src/modules/events/events.service.ts comes to an end, and leaves no dead event.
use webhook_backend.Prelude.{
  ℕ, zero, suc, ◌+◌, ◌-◌, ◌≤◌, ◌<◌, ◌≡◌, ◌⊎◌, inl, inr, refl, sym, ap, ◌∙◌, subst, Bool, true,
  false, Option, some, none, [], ◌∷◌, length, take, Collection, find_by_id, update_by_id, find_many,
  count_documents, ltb, if◌then◌else◌, ok, Action, pure, bind-ok, arith, Bool-cases,
}
use webhook_backend.Prelude.{IsKeyed, Lacks, find-Lacks, find_many-Lacks}
use webhook_backend.Events.{StoredEvent, DeliverJob, Store, add_job, add_job-up}
use webhook_backend.Events.Recovery.{is_dead_of, revive, replay_dead, replay_batch, replay_rounds}

-- The first `n` dead events of a project are alive again.
abbrev revive_first : (project n : ℕ) → Collection StoredEvent → Collection StoredEvent
revive_first project zero c = c
revive_first project (suc n) [] = []
revive_first project (suc n) ((j, e) ∷ c) =
    if is_dead_of project e
    then (j, revive e) ∷ revive_first project n c
    else (j, e) ∷ revive_first project (suc n) c

abbrev revive_each : Collection StoredEvent → Collection StoredEvent → Collection StoredEvent
revive_each [] c = c
revive_each ((j, e) ∷ batch) c = revive_each batch (update_by_id j revive c)

revive_each-Lacks :
    (k : ℕ) (e : StoredEvent) (batch c : Collection StoredEvent)
    → Lacks k batch
    → revive_each batch ((k, e) ∷ c) ≡ (k, e) ∷ revive_each batch c
revive_each-Lacks k e [] c h = refl
revive_each-Lacks k e ((j, d) ∷ batch) c (ne, h) =
    ap (revive_each batch) (ground arith) ∙ revive_each-Lacks k e batch (update_by_id j revive c) h

revive_each-batch :
    (project n : ℕ) (c : Collection StoredEvent)
    → IsKeyed c
    → revive_each (take n (find_many (is_dead_of project) c)) c ≡ revive_first project n c
revive_each-batch project zero c h = refl
revive_each-batch project (suc n) [] h = refl
revive_each-batch project (suc n) ((j, e) ∷ c) (fresh, h) =
    elim (Bool-cases (is_dead_of project e)) [
      | inl is_dead ↦ rw is_dead (
          ap (revive_each (take n (find_many (is_dead_of project) c))) (ground arith)
          ∙ revive_each-Lacks j (revive e) (take n (find_many (is_dead_of project) c)) c
              (find_many-Lacks j (is_dead_of project) n c (find-Lacks j c fresh))
          ∙ ap (λ r. (j, revive e) ∷ r) (revive_each-batch project n c h))
      | inr alive ↦ rw alive (
          revive_each-Lacks j e (take (suc n) (find_many (is_dead_of project) c)) c
            (find_many-Lacks j (is_dead_of project) (suc n) c (find-Lacks j c fresh))
          ∙ ap (λ r. (j, e) ∷ r) (revive_each-batch project (suc n) c h))
    ]

revived : (project : ℕ) (e : StoredEvent) → is_dead_of project (revive e) ≡ false
revived project e = ground arith

count-revive_first :
    (project n : ℕ) (c : Collection StoredEvent)
    → count_documents (is_dead_of project) (revive_first project n c)
      ≡ count_documents (is_dead_of project) c - n
count-revive_first project zero c = omega arith
count-revive_first project (suc n) [] = omega arith
count-revive_first project (suc n) ((j, e) ∷ c) = elim (Bool-cases (is_dead_of project e)) [
  | inl is_dead ↦ ground (arith, revived project e, count-revive_first project n c)
  | inr alive ↦ ground (arith, count-revive_first project (suc n) c)
]

length-batch :
    (p : StoredEvent → Bool) (n : ℕ) (c : Collection StoredEvent)
    → (length (take n (find_many p c)) ≡ n) × (n ≤ count_documents p c)
      ⊎ (length (take n (find_many p c)) ≡ count_documents p c) × (count_documents p c < n)
length-batch p zero c = inl (refl, omega arith)
length-batch p (suc n) [] = inr (refl, omega arith)
length-batch p (suc n) ((j, e) ∷ c) = elim (Bool-cases (p e)) [
  | inl hit ↦ rw hit (elim (length-batch p n c) [
    | inl (l, m) ↦ inl (omega (arith, l), omega (arith, m))
    | inr (l, m) ↦ inr (omega (arith, l), omega (arith, m))
  ])
  | inr miss ↦ rw miss (length-batch p (suc n) c)
]

find-revive_first :
    (k project n : ℕ) (c : Collection StoredEvent)
    → find_by_id k c ≡ none
    → find_by_id k (revive_first project n c) ≡ none
find-revive_first k project zero c h = h
find-revive_first k project (suc n) [] h = h
find-revive_first k project (suc n) ((j, e) ∷ c) h = elim (Bool-cases (is_dead_of project e)) [
  | inl hit ↦ ground (arith, find-revive_first k project n c)
  | inr miss ↦ ground (arith, find-revive_first k project (suc n) c)
]

revive_first-IsKeyed :
    (project n : ℕ) (c : Collection StoredEvent) → IsKeyed c → IsKeyed (revive_first project n c)
revive_first-IsKeyed project zero c h = h
revive_first-IsKeyed project (suc n) [] h = tt
revive_first-IsKeyed project (suc n) ((j, e) ∷ c) (fresh, h) =
    elim (Bool-cases (is_dead_of project e)) [
      | inl hit ↦ rw hit (find-revive_first j project n c fresh, revive_first-IsKeyed project n c h)
      | inr miss ↦
          rw miss
            (find-revive_first j project (suc n) c fresh, revive_first-IsKeyed project (suc n) c h)
    ]

-- A batch, with the queue up.
replay_batch-lem :
    (batch : Collection StoredEvent) (s : Store)
    → s.queue_up ≡ true
    → (s' : Store) × (replay_batch batch s ≡ (ok tt, s'))
      × (s'.events ≡ revive_each batch s.events)
      × (s'.queue_up ≡ true)
      × (length s'.jobs ≡ length s.jobs + length batch)
unfolding add_job
replay_batch-lem [] s up = (s, refl, refl, up, omega arith)
replay_batch-lem ((j, e) ∷ batch) s up =
    let job : DeliverJob = record { event_id = j; request_id = e.request_id; priority = none } in
    let revived_store : Store = record s { events = update_by_id j revive s.events } in
    let (s', done, events, still, jobs) =
      replay_batch-lem batch (record revived_store { jobs = job ∷ s.jobs }) up in
    (
      s',
      bind-ok (replay_dead j e) (λ _. replay_batch batch) (add_job-up job revived_store up) ∙ done,
      events,
      still,
      omega (arith, jobs),
    )

module _ (fuel size project total : ℕ) (s s1 : Store) where
  abbrev batch_of : Collection StoredEvent
  batch_of = take size (find_many (is_dead_of project) s.events)

  abbrev continue : Bool → Action Store (Option ℕ)
  continue last = elim last [
    | true ↦ pure (some (total + length batch_of))
    | false ↦ replay_rounds fuel size project (total + length batch_of)
  ]

  replay_rounds-round :
      (last : Bool)
      → replay_batch batch_of s ≡ (ok tt, s1)
      → ltb (length batch_of) size ≡ last
      → replay_rounds (suc fuel) size project total s ≡ continue last s1
  unfolding replay_rounds
  replay_rounds-round last done h =
      bind-ok (replay_batch batch_of) (λ _. continue (ltb (length batch_of) size)) done
      ∙ ap (λ b. continue b s1) h

-- While the queue accepts jobs and ids are unique, `replayDlq` with batches of any size comes to
-- its end (one round more than there are dead events is enough), counts each dead event of the
-- project once, queues that many jobs, and leaves no dead event of the project.
pub replay_rounds-ends :
    (fuel size project total : ℕ) (s : Store)
    → 0 < size
    → IsKeyed s.events
    → s.queue_up ≡ true
    → count_documents (is_dead_of project) s.events < fuel
    → let dead_events = count_documents (is_dead_of project) s.events in
      (s' : Store) × (replay_rounds fuel size project total s
        ≡ (ok (some (total + dead_events)), s'))
      × (count_documents (is_dead_of project) s'.events ≡ 0)
      × (length s'.jobs ≡ length s.jobs + dead_events)
replay_rounds-ends zero size project total s some_size keyed up enough = absurd (omega arith)
replay_rounds-ends (suc fuel) size project total s some_size keyed up enough =
    let p = is_dead_of project in
    let batch = take size (find_many p s.events) in
    let (s1, done, events, still, jobs) = replay_batch-lem batch s up in
    let revived_events = events ∙ revive_each-batch project size s.events keyed in
    let left = ap (count_documents p) revived_events ∙ count-revive_first project size s.events in
    elim (length-batch p size s.events) [
      | inr (all_of, fewer) ↦ (
        s1,
        replay_rounds-round fuel size project total s s1 true done (ground (arith, all_of, fewer))
            ∙ ap (λ n. (ok (some (total + n)), s1)) all_of,
        omega (arith, left, fewer),
        jobs ∙ ap (λ n. length s.jobs + n) all_of,
      )
      | inl (full, more) ↦
          let keyed1 =
            subst IsKeyed (sym revived_events) (revive_first-IsKeyed project size s.events keyed) in
          let (s2, ended, none_left, jobs2) =
            replay_rounds-ends fuel size project (total + length batch) s1 some_size keyed1 still
              (omega (arith, left, more)) in
          (
            s2,
            replay_rounds-round fuel size project total s s1 false done (ground (arith, full))
                ∙ ended
                ∙ ap (λ n. (ok (some n), s2)) (omega (arith, left, full, more)),
            none_left,
            omega (arith, jobs, jobs2, left, full, more),
          )
    ]
