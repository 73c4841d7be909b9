-- ===== src/Delivery/RateLimiter/Tests.antt =====
-- The limiter at a concrete endpoint.
use webhook_backend.Prelude.{[], ◌∷◌, Collection, arith}
use webhook_backend.Delivery.Documents.{Endpoint}
use webhook_backend.Delivery.Samples.{endpoint}
use webhook_backend.Delivery.RateLimiter.{check_rate_limit}
use webhook_backend.Delivery.RateLimiter.Laws.{IsCapped, check_rate_limit-IsCapped}

abbrev endpoints : Collection Endpoint
endpoints = (7, endpoint) ∷ []

-- The minute's cap is reached.
abbrev full : Endpoint
full = record endpoint { deliveries_this_minute = 2 }

check_rate_limit-IsCapped_example :
    IsCapped 7 endpoint.rate_limit (check_rate_limit 7 10 (λ c. c) endpoints).1
check_rate_limit-IsCapped_example =
    check_rate_limit-IsCapped 7 10 endpoint.rate_limit (λ c. c) endpoints (λ c h. h)
      (λ ep found. ground arith)
