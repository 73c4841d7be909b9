-- ===== src/Delivery/Deliver/Response.antt =====
-- What a response, or its absence, leaves behind.
use Prim.Native.String.{String}
use webhook_backend.Prelude.{
  ℕ, ◌≡◌, ◌∙◌, ap, sym, subst, not, Bool, true, false, Option, none, some, if-true, if-false, ◌∷◌,
  find_by_id, arith, find_by_id-update_self, find_by_id-upsert, ◌+◌, ◌-◌, Bool-cases, Option-cases,
  inl, inr, ◌||◌, refl, if◌then◌else◌,
}
use webhook_backend.Filters.{Json}
use webhook_backend.Delivery.Documents.{
  WebhookEvent, Endpoint, EndpointType, http, DeliveryLog, EventStatus,
}
use webhook_backend.Delivery.Breaker.{record_success, no_keys}
use webhook_backend.Delivery.World.{World, Env, Answers, endpoint_id_of, breaker_keys}
use webhook_backend.Delivery.Failure.Laws.{failure_logs}
use webhook_backend.Delivery.Deliver.{
  deliver_through_breakers, deliver_over_http, send_authorized, send_request, send_shadow,
  get_token, is_fresh, update_if, count_canary_failed, log_response, settle_response,
  settle_success, canary_target, is_canary, mark_delivered, is_success, by_type,
}
use webhook_backend.Delivery.Deliver.Requests.{Outcome, IsLetThrough, target_of, webhook_request}

-- The row of an attempt.
abbrev pub attempt_row :
    Env → ℕ → WebhookEvent → (code : Option ℕ) (at latency : ℕ) → Bool → DeliveryLog
attempt_row env event_id event code at latency success = record {
  event_id = event_id;
  endpoint_id = endpoint_id_of env event;
  attempt = event.retry_count + 1;
  success = success;
  status_code = code;
  latency_ms = latency;
  attempted_at = at;
}

module _ (env : Env) (ans : Answers) (event_id : ℕ) (event : WebhookEvent) (ep : Endpoint) where
  abbrev canary : Bool
  canary = is_canary (canary_target ans ep)

  -- The event is delivered at the time of the response, the shared breaker of the endpoint's id has
  -- no failures and no state, if Redis answers, one row is logged, and nothing is queued.
  abbrev pub IsDelivered : (code : ℕ) → World → World → Type 0
  IsDelivered code w w' =
      (find_by_id event_id w'.events
        ≡ some (record event {
          status = EventStatus.delivered;
          delivered_at = some ans.later;
          last_attempt_at = some ans.later;
        }))
      × (find_by_id (endpoint_id_of env event) w'.breakers
          ≡ some (if env.redis_up then no_keys else breaker_keys (endpoint_id_of env event) w))
      × (w'.logs
          ≡ attempt_row env event_id event (some code) ans.later (ans.later - ans.now) true
            ∷ w.logs)
      × (w'.jobs ≡ w.jobs)
      × (w'.dead_letters ≡ w.dead_letters)

  success-settles :
      (b : Bool) (code : ℕ) (w : World)
      → find_by_id event_id w.events ≡ some event
      → is_success code ≡ true
      → IsDelivered code w
          (settle_success env ans event_id event b (log_response env ans event_id event code w))
  unfolding settle_success record_success
  success-settles b code w found good = (
    ground (arith, find_by_id-update_self event_id (mark_delivered ans.later) w.events found),
    ground (
      arith,
      find_by_id-upsert (endpoint_id_of env event) (endpoint_id_of env event)
          (record_success env.redis_up) no_keys w.breakers,
    ),
    ground (arith, good),
    ground arith,
    ground arith,
  )

  shadow-IsDelivered :
      (url : Option String) (code : ℕ) (w v : World)
      → IsDelivered code w v
      → IsDelivered code w (send_shadow ans event_id url v)
  shadow-IsDelivered none code w v h = h
  shadow-IsDelivered (some url) code w v h = elim (Bool-cases (ans.url_is_safe url)) [
    | inl safe ↦ rw safe h
    | inr unsafe ↦ rw unsafe h
  ]

  send_request-IsDelivered :
      (code : ℕ) (w : World)
      → find_by_id event_id w.events ≡ some event
      → ans.url_is_safe (target_of ans ep) ≡ true
      → ans.response ≡ some code
      → is_success code ≡ true
      → IsDelivered code w (send_request env ans event_id event ep w).1
  unfolding send_request settle_response
  send_request-IsDelivered code w found safe answer good =
      let v : World = record w {
        requests = webhook_request env ans event_id event ep ∷ w.requests;
      } in
      let settles : send_request env ans event_id event ep w
          ≡ settle_response env ans event_id event ep canary (some code) v =
        if-true _ safe ∙ ap (λ r. settle_response env ans event_id event ep canary r v) answer in
      subst (λ (r : Outcome). IsDelivered code w r.1)
        (sym (settles ∙ if-true {b = is_success code} _ good))
        (shadow-IsDelivered ep.shadow_url code w
          (settle_success env ans event_id event canary
            (log_response env ans event_id event code v))
          (success-settles canary code v found good))

  get_token-IsDelivered :
      (url : Option String) (code : ℕ) (w w' : World)
      → IsDelivered code (get_token env ans event_id event url w).1 w'
      → IsDelivered code w w'
  get_token-IsDelivered none code w w' h = h
  get_token-IsDelivered (some url) code w w' h =
      elim (Bool-cases (is_fresh ans.now (find_by_id (endpoint_id_of env event) w.tokens))) [
        | inl fresh ↦ rw fresh at h
        | inr stale ↦ elim (Option-cases ans.token_lifetime) [
          | inl refused ↦ rw (stale, refused) at h
          | inr (t, granted) ↦ rw (stale, granted) at h
        ]
      ]

  get_token-events :
      (url : Option String) (w : World)
      → (get_token env ans event_id event url w).1.events ≡ w.events
  get_token-events none w = refl
  get_token-events (some url) w = ground arith

  neither : (a b : Bool) → a ≡ false → b ≡ false → (a || b) ≡ false
  neither a b p q = rw (p, q)

  by_type-http : {t : EndpointType} (x : Outcome) {y : Outcome} → t ≡ http → by_type t x y ≡ y
  by_type-http x e = ground arith

  -- Past the limiter, an event that is let through, to a safe target, with a token where the
  -- endpoint needs one, and whose request is answered with a 2xx status, is delivered at the time of
  -- the response; the shared breaker of the endpoint's id is as new, if Redis answers; one row of a
  -- success is logged, and nothing is queued, neither again nor as a dead letter.
  pub past_limiter_delivers :
      (payload : Json) (code : ℕ) (w : World)
      → IsLetThrough env ans event_id event ep payload w
      → find_by_id event_id w.events ≡ some event
      → (get_token env ans event_id event ep.token_url w).0 ≡ true
      → ans.url_is_safe (target_of ans ep) ≡ true
      → ans.response ≡ some code
      → is_success code ≡ true
      → IsDelivered code w (deliver_through_breakers env ans event_id event ep payload w).1
  unfolding deliver_through_breakers deliver_over_http send_authorized
  past_limiter_delivers payload code w (local, shared, over, ip, fits) found granted safe answer
        good =
      let v = (get_token env ans event_id event ep.token_url w).1 in
      let sends : deliver_through_breakers env ans event_id event ep payload w
          ≡ send_request env ans event_id event ep v =
        if-false _ (neither ans.breaker_opened _ local shared)
        ∙ by_type-http _ over
        ∙ if-false _ (ap not ip)
        ∙ if-false _ (ap not fits)
        ∙ if-true _ granted in
      get_token-IsDelivered ep.token_url code w
        (deliver_through_breakers env ans event_id event ep payload w).1
        (subst (λ (r : Outcome). IsDelivered code v r.1) (sym sends)
          (send_request-IsDelivered code v
            (ap (λ c. find_by_id event_id c) (get_token-events ep.token_url w) ∙ found) safe answer
            good))

  -- Any other answer writes two rows of the log for the one attempt, both of a failure with that
  -- status.
  pub settle_response_rejected :
      (code : ℕ) (w : World)
      → is_success code ≡ false
      → let row =
          attempt_row env event_id event (some code) ans.later (ans.later - ans.now) false in
        (settle_response env ans event_id event ep canary (some code) w).1.logs ≡ row ∷ row ∷ w.logs
  unfolding settle_response
  settle_response_rejected code w bad =
      let v = log_response env ans event_id event code w in
      let row = attempt_row env event_id event (some code) ans.later (ans.later - ans.now) false in
      ap (λ (r : Outcome). r.1.logs) (if-false {b = is_success code} _ bad)
      ∙ failure_logs env ans.later event_id event ep
          (record { status_code = some code; latency_ms = ans.later - ans.now })
          (update_if canary (endpoint_id_of env event) count_canary_failed v)
      ∙ ap (λ ls. row ∷ ls) (logged canary)
    where
      logged :
          (b : Bool)
          → (update_if b
              (endpoint_id_of env event)
              count_canary_failed
              (log_response env ans event_id event code w)).logs
            ≡ attempt_row env event_id event (some code) ans.later (ans.later - ans.now) false
              ∷ w.logs
      logged b = ground (arith, bad)
