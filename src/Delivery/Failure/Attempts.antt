-- ===== src/Delivery/Failure/Attempts.antt =====
-- An event that keeps failing: how many attempts it has.
use webhook_backend.Prelude.{
  ℕ, zero, suc, ◌+◌, ◌≡◌, refl, some, none, find_by_id, arith, leb, if◌then◌else◌,
}
use native.Mathlib.Decide.{dec_lt}
use webhook_backend.Delivery.Documents.{WebhookEvent, Endpoint, dead, retrying}
use webhook_backend.Delivery.World.{World, Env}
use webhook_backend.Delivery.Failure.{handle_delivery_failure, Failure, max_retries_of}
use webhook_backend.Delivery.Failure.Laws.{failure_exhausts, retrying-events}

-- One failed delivery of the stored event.
abbrev pub fail_once : Env → ℕ → ℕ → Endpoint → Failure → World → World
fail_once env now event_id ep err w = elim (find_by_id event_id w.events) [
  | none ↦ w
  | some event ↦ handle_delivery_failure env now event_id event ep err w
]

-- `n` of them, each on the event as the one before left it.
pub fail_times : Env → ℕ → ℕ → Endpoint → Failure → ℕ → World → World
fail_times env now event_id ep err zero w = w
fail_times env now event_id ep err (suc n) w =
    fail_times env now event_id ep err n (fail_once env now event_id ep err w)

-- The event is retrying below the endpoint's limit and dead at it.
abbrev pub HasAttempts : ℕ → Endpoint → ℕ → World → Type 0
HasAttempts event_id ep n w =
    (e : WebhookEvent) × (find_by_id event_id w.events ≡ some e)
    × (e.retry_count ≡ n)
    × (e.status ≡ (if leb (max_retries_of ep) n then dead else retrying))

fail_once-HasAttempts :
    (env : Env) (now event_id : ℕ) (ep : Endpoint) (err : Failure) (w : World) {e : WebhookEvent}
    → find_by_id event_id w.events ≡ some e
    → HasAttempts event_id ep (e.retry_count + 1) (fail_once env now event_id ep err w)
fail_once-HasAttempts env now event_id ep err w {e} found =
    elim (dec_lt (e.retry_count + 1) (max_retries_of ep)) [
      | yes left ↦
          rw (found, fail_once)
            (_, (retrying-events env now event_id e ep err w found left).0, refl, ground arith)
      | no over ↦
          rw (found, fail_once)
            (
              _,
              (failure_exhausts env now event_id e ep err w found (omega arith)).0,
              refl,
              ground arith,
            )
    ]

fail_times-HasAttempts :
    (env : Env) (now event_id : ℕ) (ep : Endpoint) (err : Failure) (n k : ℕ) (w : World)
    → HasAttempts event_id ep k w
    → HasAttempts event_id ep (k + n) (fail_times env now event_id ep err n w)
unfolding fail_times
fail_times-HasAttempts env now event_id ep err zero k w h =
    let same : k + 0 ≡ k = omega arith in rw same h
fail_times-HasAttempts env now event_id ep err (suc n) k w (e, found, count, _) =
    let shift : k + suc n ≡ (k + 1) + n = omega arith in
    rw shift (
      fail_times-HasAttempts env now event_id ep err n (k + 1) (fail_once env now event_id ep err w)
        (rw (← count) (fail_once-HasAttempts env now event_id ep err w found)))

-- An event that fails again and again counts every attempt, is retrying as long as the count is
-- below the endpoint's limit, and is dead once it has reached it.
pub fail_times_ends :
    (env : Env) (now event_id : ℕ) (ep : Endpoint) (err : Failure) (n : ℕ) (w : World)
    {e : WebhookEvent}
    → find_by_id event_id w.events ≡ some e
    → HasAttempts event_id ep (e.retry_count + suc n) (fail_times env now event_id ep err (suc n) w)
unfolding fail_times
fail_times_ends env now event_id ep err n w {e} found =
    let shift : e.retry_count + suc n ≡ (e.retry_count + 1) + n = omega arith in
    rw shift (
      fail_times-HasAttempts env now event_id ep err n (e.retry_count + 1)
        (fail_once env now event_id ep err w)
        (fail_once-HasAttempts env now event_id ep err w found))
