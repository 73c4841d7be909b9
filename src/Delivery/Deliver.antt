-- ===== src/Delivery/Deliver.antt =====
-- `deliver` of delivery/delivery.service.ts, in the order of its guards. Each stage is a
-- continuation of the one before it; `event` and `ep` are the documents as `deliver` read them.
pub mod Response
pub mod Requests
pub mod Deferrals
mod Tests
use Prim.Native.String.{String}
use text.Mathlib.Text.{◌==◌ as str_eq}
use webhook_backend.Prelude.{
  ℕ, ◌+◌, ◌-◌, ◌/◌, ◌%◌, Bool, true, false, not, ◌&&◌, ◌||◌, Option, some, none, List, [], ◌∷◌,
  Collection, find_by_id, update_by_id, upsert_by_id, if◌then◌else◌, leb, ltb, ◌==◌, any, Result,
  ok, err, Exception, Action,
}
use webhook_backend.Filters.{evaluate, Json}
use webhook_backend.Delivery.Documents.{
  WebhookEvent, Endpoint, EndpointStatus, active, EndpointType, http, s3, gcs, MaintenanceWindow,
  DeliveryLog, Job, JobId, EventStatus, retrying, filtered, rate_limited, rate_queued, delivered,
}
use webhook_backend.Delivery.RateLimiter.{
  RateLimitResult, allowed, not_found, limited, check_rate_limit,
}
use webhook_backend.Delivery.Breaker.{is_open, record_success, no_keys}
use webhook_backend.Delivery.World.{
  endpoint_id_of, World, Env, Answers, Metric, filtered_metric, rate_limited_metric,
  delivered_metric, breaker_keys, Request, RequestKind, token, webhook, shadow,
}
use webhook_backend.Delivery.Failure.{Failure, handle_delivery_failure, schedule_retry, or_number}

abbrev pub done : World → Result (Unit {0}) × World
done w = (ok tt, w)

-- `getUTCDay` and `getUTCHours`: the first of January 1970 was a Thursday.
abbrev pub utc_day : ℕ → ℕ
utc_day now = (now / 86_400_000 + 4) % 7

abbrev pub utc_hour : ℕ → ℕ
utc_hour now = now / 3_600_000 % 24

-- `isInMaintenanceWindow` (utils/maintenance-window.ts)
unfoldable pub is_in_maintenance_window : List MaintenanceWindow → ℕ → Bool
is_in_maintenance_window windows now =
    any
      (λ w.
        w.day_of_week == utc_day now
        && (leb w.start_hour (utc_hour now) && ltb (utc_hour now) w.end_hour))
      windows

abbrev pub is_success : ℕ → Bool
is_success code = leb 200 code && ltb code 300

abbrev pub fail_delivery :
    Env → ℕ → ℕ → WebhookEvent → Endpoint → Option ℕ → ℕ → World → Result (Unit {0}) × World
fail_delivery env now event_id event ep code latency w = done (
    handle_delivery_failure env now event_id event ep
      (record { status_code = code; latency_ms = latency }) w)

-- The row that is written for every response.
abbrev pub log_response : Env → Answers → ℕ → WebhookEvent → ℕ → World → World
log_response env ans event_id event code w = record w {
  logs =
      (record {
        event_id = event_id;
        endpoint_id = endpoint_id_of env event;
        attempt = event.retry_count + 1;
        success = is_success code;
        status_code = some code;
        latency_ms = ans.later - ans.now;
        attempted_at = ans.later;
      })
      ∷ w.logs;
}

abbrev pub mark_delivered : ℕ → WebhookEvent → WebhookEvent
mark_delivered now e = record e {
  status = delivered;
  delivered_at = some now;
  last_attempt_at = some now;
}

abbrev pub count_success : ℕ → Endpoint → Endpoint
count_success now ep = record ep {
  failure_count = 0;
  last_success_at = some now;
  total_delivered = ep.total_delivered + 1;
}

abbrev pub count_canary_delivered : Endpoint → Endpoint
count_canary_delivered ep = record ep { canary_delivered = ep.canary_delivered + 1 }

abbrev pub count_canary_failed : Endpoint → Endpoint
count_canary_failed ep = record ep { canary_failed = ep.canary_failed + 1 }

abbrev pub update_if : Bool → ℕ → (Endpoint → Endpoint) → World → World
update_if b id f w = if b then record w { endpoints = update_by_id id f w.endpoints } else w

-- The writes of a delivery that the endpoint accepted.
pub settle_success : Env → Answers → ℕ → WebhookEvent → (is_canary : Bool) → World → World
settle_success env ans event_id event is_canary w =
    let w' = update_if is_canary (endpoint_id_of env event) count_canary_delivered w in
    record w' {
      events = update_by_id event_id (mark_delivered ans.later) w'.events;
      endpoints = update_by_id (endpoint_id_of env event) (count_success ans.later) w'.endpoints;
      breakers =
          upsert_by_id (endpoint_id_of env event) (record_success env.redis_up) no_keys w'.breakers;
      metrics = delivered_metric (endpoint_id_of env event) ∷ w'.metrics;
    }

-- The copy that goes to the shadow address once the endpoint accepted the event; what it answers
-- is nobody's concern.
abbrev pub send_shadow : Answers → ℕ → Option String → World → World
send_shadow ans event_id none w = w
send_shadow ans event_id (some url) w =
    if ans.url_is_safe url
    then record w {
      requests = (record { kind = shadow; event_id = event_id; target = url }) ∷ w.requests;
    }
    else w

-- What follows `breaker.fire`: a response, or an error of the request.
pub settle_response :
    Env
    → Answers
    → ℕ
    → WebhookEvent
    → Endpoint
    → (is_canary : Bool) → Option ℕ
    → World
    → Result (Unit {0}) × World
unfolding settle_success
settle_response env ans event_id event ep is_canary none w =
    fail_delivery env ans.later event_id event ep none (ans.later - ans.now) w
settle_response env ans event_id event ep is_canary (some code) w =
    let w' = log_response env ans event_id event code w in
    if is_success code
    then done (
        send_shadow ans event_id ep.shadow_url (settle_success env ans event_id event is_canary w'))
    else fail_delivery env ans.later event_id event ep (some code) (ans.later - ans.now)
        (update_if is_canary (endpoint_id_of env event) count_canary_failed w')

-- Whether the canary target is used, and the target.
abbrev pub canary_target : Answers → Endpoint → Option String
canary_target ans ep =
    if ltb 0 ep.canary_percent && ans.canary_draw ep.canary_percent then ep.canary_url else none

abbrev pub or_url : Option String → String → String
or_url none url = url
or_url (some canary) url = canary

abbrev pub is_canary : Option String → Bool
is_canary none = false
is_canary (some canary) = true

-- The choice of the target, the check against internal addresses, and the request.
pub send_request : Env → Answers → ℕ → WebhookEvent → Endpoint → World → Result (Unit {0}) × World
unfolding settle_response
send_request env ans event_id event ep w =
    let canary = canary_target ans ep in
    let target = or_url canary ep.url in
    if ans.url_is_safe target
    then settle_response env ans event_id event ep (is_canary canary) ans.response (record w {
      requests = (record { kind = webhook; event_id = event_id; target = target }) ∷ w.requests;
    })
    else fail_delivery env ans.now event_id event ep none 0 w

abbrev pub is_fresh : (now : ℕ) → Option ℕ → Bool
is_fresh now none = false
is_fresh now (some expires_at) = ltb now expires_at

-- The token request of `getOAuth2Token`, whose address nothing checks. All tokens stand under
-- the one key that `endpoint.id` is, so the cache does not grow, and its bound is not reached.
abbrev pub request_token : Env → Answers → ℕ → WebhookEvent → (url : String) → World → Bool × World
request_token env ans event_id event url w =
    let w' = record w {
      requests = (record { kind = token; event_id = event_id; target = url }) ∷ w.requests;
    } in
    elim ans.token_lifetime [
      | none ↦ (false, w')
      | some lifetime ↦ (
        true,
        record w' {
          tokens =
              upsert_by_id (endpoint_id_of env event) (λ _. ans.now + lifetime - 60_000) 0 w.tokens;
        },
      )
    ]

-- `getOAuth2Token`, where the endpoint asks for one: whether it returns, and does not throw.
abbrev pub get_token :
    Env → Answers → ℕ → WebhookEvent → (token_url : Option String) → World → Bool × World
get_token env ans event_id event none w = (true, w)
get_token env ans event_id event (some url) w =
    if is_fresh ans.now (find_by_id (endpoint_id_of env event) w.tokens)
    then (true, w)
    else request_token env ans event_id event url w

-- `buildAxiosConfig`, which leaves `deliver` with the exception when there is no token, and the
-- request.
pub send_authorized :
    Env → Answers → ℕ → WebhookEvent → Endpoint → World → Result (Unit {0}) × World
unfolding send_request
send_authorized env ans event_id event ep w =
    let (granted, w') = get_token env ans event_id event ep.token_url w in
    if granted then send_request env ans event_id event ep w' else (err Exception.unavailable, w')

-- The allowlist passes when it is empty, holds the resolved address, or nothing was resolved.
abbrev pub ip_passes : List String → Option String → Bool
ip_passes [] ip = true
ip_passes (a ∷ ips) none = true
ip_passes (a ∷ ips) (some ip) = any (λ b. str_eq b ip) (a ∷ ips)

abbrev pub size_passes : Env → Endpoint → Json → Bool
size_passes env ep payload =
    ep.max_payload_bytes == 0 || leb (env.byte_length payload) ep.max_payload_bytes

-- The address allowlist and the payload's size.
pub deliver_over_http :
    Env → Answers → ℕ → WebhookEvent → Endpoint → Json → World → Result (Unit {0}) × World
unfolding send_authorized
deliver_over_http env ans event_id event ep payload w =
    if not (ip_passes ep.allowed_ips ans.resolved_ip)
    then fail_delivery env ans.now event_id event ep none 0 w
    else if not (size_passes env ep payload)
    then fail_delivery env ans.now event_id event ep none 0 w
    else send_authorized env ans event_id event ep w

-- `deliverToS3` and `deliverToGcs`: an upload that throws leaves `deliver` with the exception.
pub deliver_to_storage : Env → Answers → ℕ → WebhookEvent → World → Result (Unit {0}) × World
deliver_to_storage env ans event_id event w =
    if ans.upload_succeeds
    then done (record w {
      events = update_by_id event_id (mark_delivered ans.later) w.events;
      endpoints =
          update_by_id (endpoint_id_of env event)
            (λ ep. record ep {
              total_delivered = ep.total_delivered + 1;
              last_success_at = some ans.later;
            })
            w.endpoints;
    })
    else (err Exception.unavailable, w)

abbrev pub by_type :
    EndpointType → (storage over_http : Result (Unit {0}) × World) → Result (Unit {0}) × World
by_type http storage over_http = over_http
by_type s3 storage over_http = storage
by_type gcs storage over_http = storage

-- The two circuit breakers, and the kind of endpoint.
pub deliver_through_breakers :
    Env → Answers → ℕ → WebhookEvent → Endpoint → Json → World → Result (Unit {0}) × World
unfolding deliver_over_http deliver_to_storage
deliver_through_breakers env ans event_id event ep payload w =
    if ans.breaker_opened
      || is_open env.redis_up ans.now (breaker_keys (endpoint_id_of env event) w)
    then done (schedule_retry env event_id event.retry_count w)
    else by_type ep.endpoint_type (deliver_to_storage env ans event_id event w)
        (deliver_over_http env ans event_id event ep payload w)

-- A delivery that the limiter refused: dropped, or queued again after the wait.
pub defer_rate_limited : Env → Answers → ℕ → WebhookEvent → ℕ → World → World
defer_rate_limited env ans event_id event wait w =
    if ltb 3_600_000 wait
    then record w {
      events = update_by_id event_id (λ e. record e { status = rate_limited }) w.events;
      metrics = rate_limited_metric (endpoint_id_of env event) ∷ w.metrics;
    }
    else record w {
      events =
          update_by_id event_id
            (λ e. record e { status = rate_queued; next_retry_at = some (ans.now + wait) })
            w.events;
      jobs =
          env.add_job
            (record { id = JobId.drip event_id ans.now; event_id = event_id; delay = wait }) w.jobs;
    }

-- `retryAfterMs || 60_000`
abbrev pub wait_of : RateLimitResult → ℕ
wait_of allowed = 60_000
wait_of not_found = 60_000
wait_of (limited t wait) = or_number wait 60_000

abbrev pub is_allowed : RateLimitResult → Bool
is_allowed allowed = true
is_allowed not_found = false
is_allowed (limited t wait) = false

-- The limiter.
pub deliver_within_limits :
    Env → Answers → ℕ → WebhookEvent → Endpoint → Json → World → Result (Unit {0}) × World
unfolding deliver_through_breakers defer_rate_limited
deliver_within_limits env ans event_id event ep payload w =
    let (r, eps) = check_rate_limit (endpoint_id_of env event) ans.now (λ c. c) w.endpoints in
    let w' = record w { endpoints = eps } in
    if is_allowed r
    then deliver_through_breakers env ans event_id event ep payload w'
    else done (defer_rate_limited env ans event_id event (wait_of r) w')

-- The maintenance windows and the filter rules.
pub deliver_to_endpoint :
    Env → Answers → ℕ → WebhookEvent → Endpoint → World → Result (Unit {0}) × World
unfolding deliver_within_limits
deliver_to_endpoint env ans event_id event ep w =
    if is_in_maintenance_window ep.maintenance_windows ans.now
    then done (record w {
      events =
          update_by_id event_id
            (λ e. record e { next_retry_at = some (ans.now + 3_600_000); status = retrying })
            w.events;
    })
    else if not (evaluate env.js ep.filter_rules event.event_type (env.open_payload event.payload))
    then done (record w {
      events = update_by_id event_id (λ e. record e { status = filtered }) w.events;
      metrics = filtered_metric (endpoint_id_of env event) ∷ w.metrics;
    })
    else deliver_within_limits env ans event_id event ep (env.open_payload event.payload) w

abbrev pub is_active : EndpointStatus → Bool
is_active active = true
is_active _ = false

-- The endpoint from the cache or, on a miss, from the database, which fills the cache.
abbrev pub load_endpoint : ℕ → World → Option Endpoint × World
load_endpoint id w = elim (find_by_id id w.cache) [
  | some ep ↦ (some ep, w)
  | none ↦ elim (find_by_id id w.endpoints) [
    | none ↦ (none, w)
    | some ep ↦ (some ep, record w { cache = (id, ep) ∷ w.cache })
  ]
]

-- What `deliver` does with the endpoint, if there is one and it is active.
pub deliver_loaded :
    Env → Answers → ℕ → WebhookEvent → Option Endpoint → World → Result (Unit {0}) × World
unfolding deliver_to_endpoint
deliver_loaded env ans event_id event none w = done w
deliver_loaded env ans event_id event (some ep) w =
    if is_active ep.status then deliver_to_endpoint env ans event_id event ep w else done w

-- `deliver`
pub deliver : Env → Answers → ℕ → Action World (Unit {0})
unfolding deliver_loaded
deliver env ans event_id w = elim (find_by_id event_id w.events) [
  | none ↦ done w
  | some event ↦
      let (found, w') = load_endpoint event.endpoint_id w in
      deliver_loaded env ans event_id event found w'
]
