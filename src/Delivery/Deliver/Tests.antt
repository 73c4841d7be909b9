-- ===== src/Delivery/Deliver/Tests.antt =====
-- Deliveries of a concrete event.
use webhook_backend.Prelude.{◌≡◌, ◌⊎◌, refl, some, List, [], ◌∷◌, ◌++◌, find_by_id, length}
use webhook_backend.Filters.{null, evaluate}
use webhook_backend.Delivery.Documents.{Endpoint, JobId, rate_queued}
use webhook_backend.Delivery.World.{Request}
use webhook_backend.Delivery.Breaker.{is_open}
use webhook_backend.Delivery.Samples.{env, endpoint, event, world, answers}
use webhook_backend.Delivery.Deliver.{
  deliver, deliver_through_breakers, deliver_over_http, send_authorized, send_request,
  settle_response, settle_success, is_in_maintenance_window,
}
use webhook_backend.Delivery.Deliver.Requests.{IsLetThrough, IsMade, past_limiter_requests}
use webhook_backend.Delivery.Deliver.Response.{IsDelivered, past_limiter_delivers}
use webhook_backend.Delivery.Deliver.Deferrals.{IsPutOff, deliver_unknown_id, deliver_never_sends}

-- It asks for a token, and has a shadow address.
abbrev guarded : Endpoint
guarded = record endpoint {
  token_url = some "https://example.com/token";
  shadow_url = some "https://example.com/copy";
}

past_limiter_requests_example :
    let w' = (deliver_through_breakers env answers 3 event guarded null world).1 in
    (w'.requests ≡ [])
    ⊎ (IsLetThrough env answers 3 event guarded null world
        × ((made : List Request) × IsMade env answers 3 event guarded made
            × (w'.requests ≡ made ++ [])))
past_limiter_requests_example = past_limiter_requests env answers 3 event guarded null world

-- All three requests are made.
requests-guarded :
    length (deliver_through_breakers env answers 3 event guarded null world).1.requests ≡ 3
unfolding deliver_through_breakers deliver_over_http send_authorized send_request settle_response
    settle_success is_open
requests-guarded = refl

past_limiter_delivers_example :
    IsDelivered env answers 3 event guarded 200 world
      (deliver_through_breakers env answers 3 event guarded null world).1
unfolding is_open
past_limiter_delivers_example =
    past_limiter_delivers env answers 3 event guarded null 200 world (refl, refl, refl, refl, refl)
      refl refl refl refl refl

deliver_never_sends_example : IsPutOff 3 world (deliver env answers 3 world).1
deliver_never_sends_example = deliver_never_sends env answers 3 world refl

deliver_unknown_id_example :
    let w = (deliver env answers 3 world).1 in
    (find_by_id 3 w.events
      ≡ some (record event { next_retry_at = some 60_010; status = rate_queued }))
    × (w.jobs ≡ record { id = JobId.drip 3 10; event_id = 3; delay = 60_000 } ∷ [])
    × (w.requests ≡ [])
unfolding is_in_maintenance_window evaluate
deliver_unknown_id_example =
    deliver_unknown_id env answers 3 event endpoint world refl refl refl refl refl refl
