-- ===== src/Delivery/Deliver/Requests.antt =====
-- The requests of a delivery that src/modules/delivery/delivery.service.ts has let past the limiter.
use Prim.Native.String.{String}
use webhook_backend.Prelude.{
  ℕ, ◌≡◌, ◌∙◌, ◌⊎◌, inl, inr, refl, subst, ap, Bool, true, false, not, ◌||◌, Option, some, none,
  List, [], ◌∷◌, ◌++◌, Result, find_by_id, arith, if-split, Bool-cases, Option-cases,
}
use webhook_backend.Filters.{Json}
use webhook_backend.Delivery.Documents.{WebhookEvent, Endpoint, EndpointType, http, s3, gcs}
use webhook_backend.Delivery.Breaker.{is_open}
use webhook_backend.Delivery.World.{
  World, Env, Answers, Request, token, webhook, shadow, endpoint_id_of, breaker_keys,
}
use webhook_backend.Delivery.Failure.Laws.{failure-requests, schedule-requests}
use webhook_backend.Delivery.Deliver.{
  deliver_through_breakers, deliver_over_http, deliver_to_storage, send_authorized, send_request,
  send_shadow, settle_response, settle_success, log_response, get_token, is_fresh, canary_target,
  or_url, ip_passes, size_passes, by_type, is_success, is_canary, update_if, count_canary_failed,
}

abbrev pub target_of : Answers → Endpoint → String
target_of ans ep = or_url (canary_target ans ep) ep.url

abbrev pub Outcome : Type 0
Outcome = Result (Unit {0}) × World

module _ (env : Env) (ans : Answers) (event_id : ℕ) (event : WebhookEvent) (ep : Endpoint) where
  abbrev pub token_request : String → Request
  token_request url = record { kind = token; event_id = event_id; target = url }

  abbrev pub webhook_request : Request
  webhook_request = record { kind = webhook; event_id = event_id; target = target_of ans ep }

  abbrev pub shadow_request : String → Request
  shadow_request url = record { kind = shadow; event_id = event_id; target = url }

  -- No request, or one for a token, to the address that the endpoint is configured with.
  abbrev pub IsTokens : List Request → Type 0
  IsTokens made =
      (made ≡ []) ⊎ ((url : String) × (ep.token_url ≡ some url) × (made ≡ token_request url ∷ []))

  -- The event went out alone, or its copy followed it, after a 2xx answer, to a safe address.
  abbrev pub IsCopied : (sent made : List Request) → Type 0
  IsCopied sent made =
      (made ≡ sent)
      ⊎ ((url : String) × (code : ℕ) × (ep.shadow_url ≡ some url)
          × (ans.url_is_safe url ≡ true)
          × (ans.response ≡ some code)
          × (is_success code ≡ true)
          × (made ≡ shadow_request url ∷ sent))

  -- The requests of one delivery, the newest first.
  abbrev pub IsMade : List Request → Type 0
  IsMade made =
      IsTokens made
      ⊎ ((tokens : List Request) × IsTokens tokens
          × (ans.url_is_safe (target_of ans ep) ≡ true)
          × IsCopied (webhook_request ∷ tokens) made)

  -- What every request needs.
  abbrev pub IsLetThrough : Json → World → Type 0
  IsLetThrough payload w =
      (ans.breaker_opened ≡ false)
      × (is_open env.redis_up ans.now (breaker_keys (endpoint_id_of env event) w) ≡ false)
      × (ep.endpoint_type ≡ http)
      × (ip_passes ep.allowed_ips ans.resolved_ip ≡ true)
      × (size_passes env ep payload ≡ true)

  abbrev pub Makes : World → World → Type 0
  Makes w w' = (made : List Request) × IsMade made × (w'.requests ≡ made ++ w.requests)

  get_token-requests :
      (url : Option String) (w : World)
      → ep.token_url ≡ url
      → (made : List Request) × IsTokens made
        × ((get_token env ans event_id event url w).1.requests ≡ made ++ w.requests)
  get_token-requests none w e = ([], inl refl, refl)
  get_token-requests (some url) w e =
      elim (Bool-cases (is_fresh ans.now (find_by_id (endpoint_id_of env event) w.tokens))) [
        | inl fresh ↦ ([], inl refl, rw fresh refl)
        | inr stale ↦ elim (Option-cases ans.token_lifetime) [
          | inl refused ↦ (token_request url ∷ [], inr (url, e, refl), rw (stale, refused) refl)
          | inr (t, granted) ↦
              (token_request url ∷ [], inr (url, e, refl), rw (stale, granted) refl)
        ]
      ]

  send_shadow-requests :
      (url : Option String) (code : ℕ) (w : World)
      → ep.shadow_url ≡ url
      → ans.response ≡ some code
      → is_success code ≡ true
      → IsCopied w.requests (send_shadow ans event_id url w).requests
  send_shadow-requests none code w e answer good = inl refl
  send_shadow-requests (some url) code w e answer good = elim (Bool-cases (ans.url_is_safe url)) [
    | inl safe ↦ rw safe (inr (url, code, e, safe, answer, good, refl))
    | inr unsafe ↦ rw unsafe (inl refl)
  ]

  success-requests :
      (b : Bool) (w : World) → (settle_success env ans event_id event b w).requests ≡ w.requests
  unfolding settle_success
  success-requests b w = ground arith

  update_if-requests :
      (b : Bool) (w : World)
      → (update_if b (endpoint_id_of env event) count_canary_failed w).requests ≡ w.requests
  update_if-requests b w = ground arith

  settle_response-requests :
      (b : Bool) (r : Option ℕ) (w : World)
      → ans.response ≡ r
      → IsCopied w.requests (settle_response env ans event_id event ep b r w).1.requests
  unfolding settle_response
  settle_response-requests b none w e = inl (failure-requests env _ event_id event ep _ w)
  settle_response-requests b (some code) w e =
      let P : Outcome → Type 0 = λ r. IsCopied w.requests r.1.requests in
      let v = log_response env ans event_id event code w in
      if-split P (is_success code)
        (λ good.
          subst
            (λ sent.
              IsCopied sent
                (send_shadow ans event_id ep.shadow_url
                  (settle_success env ans event_id event b v)).requests)
            (success-requests b v)
            (send_shadow-requests ep.shadow_url code (settle_success env ans event_id event b v)
              refl e good))
        (λ bad. inl (
          failure-requests env _ event_id event ep _
            (update_if b (endpoint_id_of env event) count_canary_failed v)
          ∙ update_if-requests b v))

  send_request-Makes :
      (w : World)
      → ((send_request env ans event_id event ep w).1.requests ≡ w.requests)
        ⊎ ((ans.url_is_safe (target_of ans ep) ≡ true)
            × IsCopied
                (webhook_request ∷ w.requests)
                (send_request env ans event_id event ep w).1.requests)
  unfolding send_request
  send_request-Makes w =
      let P : Outcome → Type 0 = λ r.
        (r.1.requests ≡ w.requests)
        ⊎ ((ans.url_is_safe (target_of ans ep) ≡ true)
            × IsCopied (webhook_request ∷ w.requests) r.1.requests) in
      if-split P (ans.url_is_safe (target_of ans ep))
        (λ safe. inr (
          safe,
          settle_response-requests (is_canary (canary_target ans ep)) ans.response
              (record w { requests = webhook_request ∷ w.requests }) refl,
        ))
        (λ unsafe. inl (failure-requests env _ event_id event ep _ w))

  after_token :
      (made : List Request) (w v w' : World)
      → IsTokens made
      → v.requests ≡ made ++ w.requests
      → (w'.requests ≡ v.requests)
        ⊎ ((ans.url_is_safe (target_of ans ep) ≡ true)
            × IsCopied (webhook_request ∷ v.requests) w'.requests)
      → Makes w w'
  after_token made w v w' tokens had (inl same) = (made, inl tokens, same ∙ had)
  after_token made w v w' tokens had (inr (safe, inl sent)) = (
    webhook_request ∷ made,
    inr (made, tokens, safe, inl refl),
    sent ∙ ap (λ l. webhook_request ∷ l) had,
  )
  after_token made w v w' tokens had (inr (safe, inr (url, code, e, passes, answer, good, sent))) =
      (
        shadow_request url ∷ webhook_request ∷ made,
        inr (made, tokens, safe, inr (url, code, e, passes, answer, good, refl)),
        sent ∙ ap (λ l. shadow_request url ∷ webhook_request ∷ l) had,
      )

  send_authorized-Makes : (w : World) → Makes w (send_authorized env ans event_id event ep w).1
  unfolding send_authorized
  send_authorized-Makes w =
      let (made, tokens, had) = get_token-requests ep.token_url w refl in
      let v = (get_token env ans event_id event ep.token_url w).1 in
      let P : Outcome → Type 0 = λ r. Makes w r.1 in
      if-split P (get_token env ans event_id event ep.token_url w).0
        (λ granted.
          after_token made w v (send_request env ans event_id event ep v).1 tokens had
            (send_request-Makes v))
        (λ refused. (made, inl tokens, had))

  over_http-Makes :
      (payload : Json) (w : World)
      → let w' = (deliver_over_http env ans event_id event ep payload w).1 in
        (w'.requests ≡ w.requests)
        ⊎ ((ip_passes ep.allowed_ips ans.resolved_ip ≡ true)
            × (size_passes env ep payload ≡ true)
            × Makes w w')
  unfolding deliver_over_http
  over_http-Makes payload w =
      let P : Outcome → Type 0 = λ r.
        (r.1.requests ≡ w.requests)
        ⊎ ((ip_passes ep.allowed_ips ans.resolved_ip ≡ true)
            × (size_passes env ep payload ≡ true)
            × Makes w r.1) in
      if-split P (not (ip_passes ep.allowed_ips ans.resolved_ip))
        (λ no_ip. inl (failure-requests env _ event_id event ep _ w))
        (λ ip.
          if-split P (not (size_passes env ep payload))
            (λ large. inl (failure-requests env _ event_id event ep _ w))
            (λ fits. inr (ground arith, ground arith, send_authorized-Makes w)))

  by_type-Makes :
      (t : EndpointType) (payload : Json) (w : World)
      → let w' =
          (by_type t
            (deliver_to_storage env ans event_id event w)
            (deliver_over_http env ans event_id event ep payload w)).1 in
        (w'.requests ≡ w.requests)
        ⊎ ((t ≡ http)
            × (ip_passes ep.allowed_ips ans.resolved_ip ≡ true)
            × (size_passes env ep payload ≡ true)
            × Makes w w')
  unfolding deliver_to_storage
  by_type-Makes http payload w = elim (over_http-Makes payload w) [
    | inl same ↦ inl same
    | inr (ip, fits, makes) ↦ inr (refl, ip, fits, makes)
  ]
  by_type-Makes s3 payload w = inl (ground arith)
  by_type-Makes gcs payload w = inl (ground arith)

  -- Past the limiter a delivery makes no request, or, both breakers being closed, over HTTP, and with
  -- an address and a payload that the endpoint takes, these, in this order: at most one for a token,
  -- to the address that the endpoint is configured with, which nothing checks; at most one of the
  -- event, to the endpoint's address or its canary's, which is no internal one; and after that, when
  -- the answer was a 2xx status, at most one of a copy, to the shadow address, no internal one.
  pub past_limiter_requests :
      (payload : Json) (w : World)
      → let w' = (deliver_through_breakers env ans event_id event ep payload w).1 in
        (w'.requests ≡ w.requests)
        ⊎ (IsLetThrough payload w
            × ((made : List Request) × IsMade made × (w'.requests ≡ made ++ w.requests)))
  unfolding deliver_through_breakers
  past_limiter_requests payload w =
      let P : Outcome → Type 0 =
        λ r. (r.1.requests ≡ w.requests) ⊎ (IsLetThrough payload w × Makes w r.1) in
      if-split P
        (ans.breaker_opened
          || is_open env.redis_up ans.now (breaker_keys (endpoint_id_of env event) w))
        (λ opened. inl (schedule-requests env event_id event.retry_count w))
        (λ closed. elim (by_type-Makes ep.endpoint_type payload w) [
          | inl same ↦ inl same
          | inr (over, ip, fits, makes) ↦ inr ((ground arith, ground arith, over, ip, fits), makes)
        ])
