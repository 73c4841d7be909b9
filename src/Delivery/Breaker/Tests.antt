-- ===== src/Delivery/Breaker/Tests.antt =====
-- The breaker at concrete times.
use webhook_backend.Prelude.{◌≡◌, ◌↔◌, ◌≤◌, refl, some, none, [], ◌∷◌, arith}
use webhook_backend.Delivery.Samples.{config}
use webhook_backend.Delivery.Breaker.{Keys, no_keys, circuit_open, circuit_closed}
use webhook_backend.Delivery.Breaker.Laws.{failures, failures_trip}

-- Two failures in a window that lasts until 30 005.
abbrev shaky : Keys
shaky = record { state = none; fails = some (record { count = 2; expires_at = 30_005 }) }

failures_trip_example :
    ((failures config (5 ∷ 6 ∷ 7 ∷ []) (circuit_closed, no_keys)).0 ≡ circuit_open) ↔ (3 ≤ 3)
failures_trip_example =
    failures_trip config 5 (6 ∷ 7 ∷ []) no_keys refl (omega arith, (omega arith, tt))
