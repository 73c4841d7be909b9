-- ===== src/Delivery/Breaker.antt =====
-- delivery/shared-breaker.service.ts: a circuit breaker for each endpoint, kept in Redis. The state
-- is the endpoint's two keys; `up` says whether Redis answers the call.
pub mod Laws
mod Tests
use webhook_backend.Prelude.{
  ℕ, ◌+◌, Bool, true, false, Option, some, none, ltb, leb, ◌==◌, if◌then◌else◌,
}

-- BREAKER_WINDOW_MS, BREAKER_RESET_MS and BREAKER_FAILURES.
pub record Config : Type 0 where
  pub window_ms : ℕ
  pub reset_ms : ℕ
  pub threshold : ℕ

-- A counter and when its key expires.
pub record Fails : Type 0 where
  pub count : ℕ
  pub expires_at : ℕ

-- `state` is when the key that holds 'open' expires.
pub record Keys : Type 0 where
  pub state : Option ℕ
  pub fails : Option Fails

abbrev pub no_keys : Keys
no_keys = record { state = none; fails = none }

pub data Circuit : Type 0 where
  circuit_closed circuit_open : Circuit

-- A key is there until it expires.
abbrev pub is_live : Option ℕ → ℕ → Bool
is_live none now = false
is_live (some at) now = ltb now at

abbrev pub live_fails : Option Fails → ℕ → Option Fails
live_fails none now = none
live_fails (some f) now = if ltb now f.expires_at then some f else none

-- `isOpen`: a call that Redis does not answer lets the delivery through.
unfoldable pub is_open : (up : Bool) → ℕ → Keys → Bool
is_open up now k = if up then is_live k.state now else false

-- `incr`, and `pexpire` on the first failure of a window.
abbrev pub increment : Config → ℕ → Option Fails → Fails
increment cfg now none = record { count = 1; expires_at = now + cfg.window_ms }
increment cfg now (some f) = record f { count = f.count + 1 }

-- `recordFailure`
unfoldable pub record_failure : Config → (up : Bool) → ℕ → Keys → Circuit × Keys
record_failure cfg up now k =
    let f = increment cfg now (live_fails k.fails now) in
    if up
    then (if leb cfg.threshold f.count
        then (circuit_open, record { state = some (now + cfg.reset_ms); fails = some f })
        else (circuit_closed, record k { fails = some f }))
    else (circuit_closed, k)

-- `recordSuccess`, which `forceClose` calls
unfoldable pub record_success : (up : Bool) → Keys → Keys
record_success up k = if up then no_keys else k

-- `forceOpen`
unfoldable pub force_open : (up : Bool) → ℕ → ℕ → Keys → Keys
force_open up now duration_ms k = if up then record k { state = some (now + duration_ms) } else k
