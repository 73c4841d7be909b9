-- ===== src/Delivery/Retry.antt =====
-- utils/retry.util.ts: when a failed delivery is tried again.
mod Tests
use native.Mathlib.Nat.{pow-suc}
use webhook_backend.Prelude.{
  ℕ, zero, suc, ◌+◌, ◌*◌, ◌^◌, ◌≤◌, ◌<◌, ◌≡◌, ◌≢◌, ◌↔◌, refl, min, Option, some, none, List, [],
  ◌∷◌, length, get_elem?, leb, if◌then◌else◌, arith,
}
use webhook_backend.Delivery.Documents.{RetryStrategy, exponential, linear, fixed}

-- RETRY_DELAYS_MS
abbrev pub retry_delays_ms : List ℕ
retry_delays_ms =
    (1 * 60 * 1000)
    ∷ (5 * 60 * 1000)
    ∷ (30 * 60 * 1000)
    ∷ (2 * 60 * 60 * 1000)
    ∷ (24 * 60 * 60 * 1000)
    ∷ []

-- MAX_RETRY_ATTEMPTS
abbrev pub max_retry_attempts : ℕ
max_retry_attempts = length retry_delays_ms

-- `getRetryDelay`
unfoldable pub get_retry_delay : ℕ → Option ℕ
get_retry_delay attempt =
    if leb max_retry_attempts attempt then none else get_elem? retry_delays_ms attempt

-- `getNextRetryAt`
unfoldable pub get_next_retry_at : ℕ → ℕ → Option ℕ
unfolding get_retry_delay
get_next_retry_at now attempt = elim (get_retry_delay attempt) [
  | none ↦ none
  | some delay ↦ some (now + delay)
]

-- The delay in seconds of `getNextRetryAtForStrategy`.
unfoldable pub strategy_delay_secs : RetryStrategy → ℕ → ℕ → ℕ
strategy_delay_secs linear attempt fixed_delay = attempt * 60
strategy_delay_secs fixed attempt fixed_delay = fixed_delay
strategy_delay_secs exponential attempt fixed_delay = min (2 ^ attempt * 30) 3600

-- `getNextRetryAtForStrategy`
unfoldable pub get_next_retry_at_for_strategy : ℕ → RetryStrategy → ℕ → ℕ → ℕ
unfolding strategy_delay_secs
get_next_retry_at_for_strategy now strategy attempt fixed_delay =
    now + strategy_delay_secs strategy attempt fixed_delay * 1000

-- Two attempts in a row that have a delay are both below MAX_RETRY_ATTEMPTS, and the second waits
-- longer than the first, between a minute and a day.
pub get_retry_delay_table :
    (attempt : ℕ) {d d' : ℕ}
    → get_retry_delay attempt ≡ some d
    → get_retry_delay (suc attempt) ≡ some d'
    → (suc attempt < max_retry_attempts) × (60_000 ≤ d) × (d < d') × (d' ≤ 86_400_000)
unfolding get_retry_delay
get_retry_delay_table zero e e' = ground arith
get_retry_delay_table (suc zero) e e' = ground arith
get_retry_delay_table (suc (suc zero)) e e' = ground arith
get_retry_delay_table (suc (suc (suc zero))) e e' = ground arith
get_retry_delay_table (suc (suc (suc (suc n)))) e e' = ground arith

-- For each strategy a later attempt waits at least as long as the one before, and the exponential
-- one never longer than an hour.
pub strategy_delay_mono :
    (strategy : RetryStrategy) (attempt fixed_delay : ℕ)
    → (strategy_delay_secs strategy attempt fixed_delay
        ≤ strategy_delay_secs strategy (suc attempt) fixed_delay)
      × (strategy_delay_secs exponential attempt fixed_delay ≤ 3600)
unfolding strategy_delay_secs
strategy_delay_mono linear attempt fixed_delay = (omega arith, omega arith)
strategy_delay_mono fixed attempt fixed_delay = (omega arith, omega arith)
strategy_delay_mono exponential attempt fixed_delay =
    (rw (pow-suc 2 attempt) (omega arith), omega arith)
