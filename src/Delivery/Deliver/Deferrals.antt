-- ===== src/Delivery/Deliver/Deferrals.antt =====
-- Deliveries that `deliver` puts off before it makes a request.
use webhook_backend.Prelude.{
  Bool, Result, ◌⊎◌, inl, inr, refl, update_by_id, arith, if-split, Option, Option-cases, ℕ, ◌≡◌,
  ◌∙◌, ap, sym, true, false, some, none, find_by_id, not, subst, if◌then◌else◌, if-true, if-false,
  find_by_id-update_self, ◌+◌, Collection,
}
use webhook_backend.Filters.{evaluate, Json}
use webhook_backend.Delivery.Documents.{
  WebhookEvent, Endpoint, EventStatus, active, JobId, retrying, filtered, rate_queued,
}
use webhook_backend.Delivery.RateLimiter.{RateLimitResult}
use webhook_backend.Delivery.RateLimiter.Laws.{check_rate_limit-absent}
use webhook_backend.Delivery.World.{World, Env, Answers, endpoint_id_of}
use webhook_backend.Delivery.Deliver.{
  deliver, deliver_through_breakers, deliver_loaded, deliver_to_endpoint, deliver_within_limits,
  defer_rate_limited, load_endpoint, is_active, is_in_maintenance_window, is_allowed, done, wait_of,
}

abbrev Outcome : Type 0
Outcome = Result (Unit {0}) × World

-- What loading the endpoint leaves as it is.
load-same :
    (id : ℕ) (w : World)
    → let w' = (load_endpoint id w).1 in
      (w'.events ≡ w.events)
      × (w'.endpoints ≡ w.endpoints)
      × (w'.jobs ≡ w.jobs)
      × (w'.logs ≡ w.logs)
      × (w'.requests ≡ w.requests)
load-same id w = ground arith

-- The statuses of an event that waits or that its endpoint does not want.
abbrev pub is_put_off : EventStatus → Bool
is_put_off retrying = true
is_put_off filtered = true
is_put_off rate_queued = true
is_put_off _ = false

-- Nothing is requested or logged, and no event changes but this one, if at all, to such a status.
abbrev pub IsPutOff : (event_id : ℕ) → World → World → Type 0
IsPutOff event_id w w' =
    (w'.requests ≡ w.requests)
    × (w'.logs ≡ w.logs)
    × ((w'.events ≡ w.events)
        ⊎ ((f : WebhookEvent → WebhookEvent) × (w'.events ≡ update_by_id event_id f w.events)
            × ((e : WebhookEvent) → is_put_off (f e).status ≡ true)))

module _ (env : Env) (ans : Answers) (event_id : ℕ) (event : WebhookEvent) (ep : Endpoint)
    (w : World) where
  abbrev after : World
  after = (deliver env ans event_id w).1

  deliver-loaded :
      find_by_id event_id w.events ≡ some event
      → (load_endpoint event.endpoint_id w).0 ≡ some ep
      → ep.status ≡ active
      → deliver env ans event_id w
        ≡ deliver_to_endpoint env ans event_id event ep (load_endpoint event.endpoint_id w).1
  unfolding deliver deliver_loaded
  deliver-loaded found cached on =
      rw (found, deliver)
        (ap (λ o. deliver_loaded env ans event_id event o (load_endpoint event.endpoint_id w).1)
            cached
          ∙ if-true _ (ap is_active on))

  -- In a maintenance window the event is marked as retrying with a date one hour ahead, and nothing
  -- is queued for that date.
  pub deliver_in_maintenance :
      find_by_id event_id w.events ≡ some event
      → (load_endpoint event.endpoint_id w).0 ≡ some ep
      → ep.status ≡ active
      → is_in_maintenance_window ep.maintenance_windows ans.now ≡ true
      → (find_by_id event_id after.events
          ≡ some (record event { next_retry_at = some (ans.now + 3_600_000); status = retrying }))
        × (after.jobs ≡ w.jobs)
        × (after.requests ≡ w.requests)
  unfolding deliver_to_endpoint
  deliver_in_maintenance found cached on closed =
      subst
        (λ (r : Outcome).
          (find_by_id event_id r.1.events
            ≡ some (record event { next_retry_at = some (ans.now + 3_600_000); status = retrying }))
          × (r.1.jobs ≡ w.jobs)
          × (r.1.requests ≡ w.requests))
        (sym (deliver-loaded found cached on ∙ if-true _ closed))
        (let (evs, eps, jbs, _, reqs) = load-same event.endpoint_id w in
          (
            find_by_id-update_self event_id
                (λ e. record e { next_retry_at = some (ans.now + 3_600_000); status = retrying })
                (load_endpoint event.endpoint_id w).1.events
                (ap (λ c. find_by_id event_id c) evs ∙ found),
            jbs,
            reqs,
          ))

  -- Where no endpoint is stored under `undefined`, which `endpoint.id` is, a delivery to an active
  -- endpoint, outside its maintenance windows and past its filters, makes no request: the event is
  -- marked as queued again, and a job for it is added, for sixty seconds later.
  pub deliver_unknown_id :
      find_by_id event_id w.events ≡ some event
      → (load_endpoint event.endpoint_id w).0 ≡ some ep
      → ep.status ≡ active
      → is_in_maintenance_window ep.maintenance_windows ans.now ≡ false
      → evaluate env.js ep.filter_rules event.event_type (env.open_payload event.payload) ≡ true
      → find_by_id env.undefined_id w.endpoints ≡ none
      → (find_by_id event_id after.events
          ≡ some (record event { next_retry_at = some (ans.now + 60_000); status = rate_queued }))
        × (after.jobs
            ≡ env.add_job
                (record { id = JobId.drip event_id ans.now; event_id = event_id; delay = 60_000 })
                w.jobs)
        × (after.requests ≡ w.requests)
  unfolding deliver_to_endpoint deliver_within_limits defer_rate_limited
  deliver_unknown_id found cached on running taken unknown =
      let w' = (load_endpoint event.endpoint_id w).1 in
      let (evs, eps, jbs, _, reqs) = load-same event.endpoint_id w in
      let absent =
        check_rate_limit-absent (endpoint_id_of env event) ans.now (λ c. c) w'.endpoints
          (ap (λ c. find_by_id (endpoint_id_of env event) c) eps ∙ unknown) in
      subst
        (λ (r : Outcome).
          (find_by_id event_id r.1.events
            ≡ some (record event { next_retry_at = some (ans.now + 60_000); status = rate_queued }))
          × (r.1.jobs
              ≡ env.add_job
                  (record { id = JobId.drip event_id ans.now; event_id = event_id; delay = 60_000 })
                  w.jobs)
          × (r.1.requests ≡ w.requests))
        (sym (
          deliver-loaded found cached on
          ∙ if-false _ running
          ∙ if-false _ (ap not taken)
          ∙ ap (λ r. continue w' r) absent))
        (
          find_by_id-update_self event_id
              (λ e. record e { status = rate_queued; next_retry_at = some (ans.now + 60_000) })
              w'.events (ap (λ c. find_by_id event_id c) evs ∙ found),
          ap
              (λ js.
                env.add_job
                  (record { id = JobId.drip event_id ans.now; event_id = event_id; delay = 60_000 })
                  js)
              jbs,
          reqs,
        )
    where
      continue : World → RateLimitResult × Collection Endpoint → Outcome
      continue w' (r, eps) =
          if is_allowed r
          then deliver_through_breakers env ans event_id event ep (env.open_payload event.payload)
              (record w' { endpoints = eps })
          else done (
              defer_rate_limited env ans event_id event (wait_of r) (record w' { endpoints = eps }))

module _ (env : Env) (ans : Answers) (event_id : ℕ) where
  within_limits-IsPutOff :
      (event : WebhookEvent) (ep : Endpoint) (payload : Json) (w : World)
      → find_by_id env.undefined_id w.endpoints ≡ none
      → IsPutOff event_id w (deliver_within_limits env ans event_id event ep payload w).1
  unfolding deliver_within_limits defer_rate_limited
  within_limits-IsPutOff event ep payload w unknown =
      let absent = check_rate_limit-absent env.undefined_id ans.now (λ c. c) w.endpoints unknown in
      subst (λ (r : Outcome). IsPutOff event_id w r.1) (sym (ap (λ r. continue r) absent))
        (
          refl,
          refl,
          inr (
            (λ e. record e { status = rate_queued; next_retry_at = some (ans.now + 60_000) }),
            refl,
            λ e. refl,
          ),
        )
    where
      continue : RateLimitResult × Collection Endpoint → Outcome
      continue (r, eps) =
          let w' = record w { endpoints = eps } in
          if is_allowed r
          then deliver_through_breakers env ans event_id event ep payload w'
          else done (defer_rate_limited env ans event_id event (wait_of r) w')

  to_endpoint-IsPutOff :
      (event : WebhookEvent) (ep : Endpoint) (w : World)
      → find_by_id env.undefined_id w.endpoints ≡ none
      → IsPutOff event_id w (deliver_to_endpoint env ans event_id event ep w).1
  unfolding deliver_to_endpoint
  to_endpoint-IsPutOff event ep w unknown =
      let P : Outcome → Type 0 = λ r. IsPutOff event_id w r.1 in
      let payload = env.open_payload event.payload in
      if-split P (is_in_maintenance_window ep.maintenance_windows ans.now)
        (λ closed. (
          refl,
          refl,
          inr (
            (λ e. record e { next_retry_at = some (ans.now + 3_600_000); status = retrying }),
            refl,
            λ e. refl,
          ),
        ))
        (λ running.
          if-split P (not (evaluate env.js ep.filter_rules event.event_type payload))
            (λ unwanted. (refl, refl, inr ((λ e. record e { status = filtered }), refl, λ e. refl)))
            (λ taken. within_limits-IsPutOff event ep payload w unknown))

  from_loaded :
      (id : ℕ) (w w' : World) → IsPutOff event_id (load_endpoint id w).1 w' → IsPutOff event_id w w'
  from_loaded id w w' (reqs, lgs, inl same) =
      let (evs, _, _, logs, requests) = load-same id w in
      (reqs ∙ requests, lgs ∙ logs, inl (same ∙ evs))
  from_loaded id w w' (reqs, lgs, inr (f, changed, puts)) =
      let (evs, _, _, logs, requests) = load-same id w in
      (reqs ∙ requests, lgs ∙ logs, inr (f, changed ∙ ap (update_by_id event_id f) evs, puts))

  loaded-IsPutOff :
      (event : WebhookEvent) (found : Option Endpoint) (w : World)
      → find_by_id env.undefined_id w.endpoints ≡ none
      → IsPutOff event_id w (deliver_loaded env ans event_id event found w).1
  unfolding deliver_loaded
  loaded-IsPutOff event none w unknown = (refl, refl, inl refl)
  loaded-IsPutOff event (some ep) w unknown =
      let P : Outcome → Type 0 = λ r. IsPutOff event_id w r.1 in
      if-split P (is_active ep.status) (λ on. to_endpoint-IsPutOff event ep w unknown)
        (λ off. (refl, refl, inl refl))

  -- Where no endpoint is stored under `undefined`, which `endpoint.id` is on every endpoint that
  -- `deliver` loads, it delivers nothing: whatever the event, its endpoint and the answers, no request
  -- is made, not even for a token, no attempt is logged, and no event changes, but for this one, which
  -- may become one that is retrying, filtered or queued again.
  pub deliver_never_sends :
      (w : World)
      → find_by_id env.undefined_id w.endpoints ≡ none
      → IsPutOff event_id w (deliver env ans event_id w).1
  unfolding deliver
  deliver_never_sends w unknown = elim (Option-cases (find_by_id event_id w.events)) [
    | inl absent ↦ rw (absent, deliver) (refl, refl, inl refl)
    | inr (event, found) ↦
        rw (found, deliver)
          (from_loaded event.endpoint_id w
            (deliver_loaded env ans event_id event (load_endpoint event.endpoint_id w).0
              (load_endpoint event.endpoint_id w).1).1
            (loaded-IsPutOff event (load_endpoint event.endpoint_id w).0
              (load_endpoint event.endpoint_id w).1
              (ap (λ c. find_by_id env.undefined_id c) (load-same event.endpoint_id w).1
                ∙ unknown)))
  ]
