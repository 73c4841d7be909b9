-- ===== src/Delivery/RateLimiter/Laws.antt =====
-- The limiter keeps every counter within its cap, and its waits within their windows.
use webhook_backend.Prelude.{
  ℕ, ◌+◌, ◌↔◌, ◌≤◌, ◌<◌, ◌≡◌, Option, some, none, Collection, find_by_id, update_by_id,
  find_by_id-update, find_by_id-update_self, arith, Bool-cases, Option-cases, inl, inr,
  if◌then◌else◌, leb, if-intro,
}
use webhook_backend.Delivery.Documents.{Endpoint, RateLimitConfig}
use webhook_backend.Delivery.RateLimiter.{
  RateLimitResult, allowed, not_found, limited, LimitType, minute, hour, day, reset_windows,
  count_delivery, has_room?, has_room, take_slot, check_windows, check_rate_limit, is_due,
  time_left,
}

-- Every counter is within its cap.
pub record IsWithin (ep : Endpoint) : Type 0 where
  pub minute : ep.deliveries_this_minute ≤ ep.rate_limit.max_per_minute
  pub hour : ep.deliveries_this_hour ≤ ep.rate_limit.max_per_hour
  pub day : ep.deliveries_this_day ≤ ep.rate_limit.max_per_day

-- The caps of endpoint `id` are `rl`, and its counters are within them.
abbrev pub IsCapped : ℕ → RateLimitConfig → Collection Endpoint → Type 0
IsCapped id rl eps =
    (ep : Endpoint) → find_by_id id eps ≡ some ep → (ep.rate_limit ≡ rl) × IsWithin ep

reset_windows-IsWithin : (now : ℕ) (ep : Endpoint) → IsWithin ep → IsWithin (reset_windows now ep)
reset_windows-IsWithin now ep h = ground arith

update-IsCapped :
    (id : ℕ) (rl : RateLimitConfig) (f : Endpoint → Endpoint) (eps : Collection Endpoint)
    → ((ep : Endpoint) → find_by_id id eps ≡ some ep → ((f ep).rate_limit ≡ rl) × IsWithin (f ep))
    → IsCapped id rl (update_by_id id f eps)
update-IsCapped id rl f eps h ep e = elim (Option-cases (find_by_id id eps)) [
  | inl absent ↦ absurd (ground (arith, find_by_id-update id id f eps))
  | inr (old, found) ↦ ground (arith, find_by_id-update id id f eps, h old found)
]

take_slot-IsCapped :
    (id now : ℕ) (reset : Endpoint) (eps : Collection Endpoint)
    → IsCapped id reset.rate_limit eps
    → IsCapped id reset.rate_limit (take_slot id now reset eps).1
unfolding take_slot
take_slot-IsCapped id now reset eps h =
    elim (Bool-cases (has_room? reset.rate_limit (find_by_id id eps))) [
      | inl room ↦ rw room (
          update-IsCapped id reset.rate_limit count_delivery eps
            (λ ep found. ground (arith, h ep found)))
      | inr full ↦ rw full h
    ]

check_windows-IsCapped :
    (id now : ℕ) (reset : Endpoint) (between : Collection Endpoint → Collection Endpoint)
    (eps : Collection Endpoint)
    → IsCapped id reset.rate_limit eps
    → IsCapped id reset.rate_limit (between eps)
    → IsCapped id reset.rate_limit (check_windows id now reset between eps).1
unfolding check_windows
check_windows-IsCapped id now reset between eps h h' =
    let P : RateLimitResult × Collection Endpoint → Type 0 =
      λ r. IsCapped id reset.rate_limit r.1 in
    if-intro P (leb reset.rate_limit.max_per_minute reset.deliveries_this_minute) h (
      if-intro P (leb reset.rate_limit.max_per_hour reset.deliveries_this_hour) h (
        if-intro P (leb reset.rate_limit.max_per_day reset.deliveries_this_day) h
          (take_slot-IsCapped id now reset (between eps) h')))

-- However deliveries interleave, counters of the endpoint that are within their caps stay so, if
-- what the others do between the two calls keeps to that.
pub check_rate_limit-IsCapped :
    (id now : ℕ) (rl : RateLimitConfig) (between : Collection Endpoint → Collection Endpoint)
    (eps : Collection Endpoint)
    → ((c : Collection Endpoint) → IsCapped id rl c → IsCapped id rl (between c))
    → IsCapped id rl eps
    → IsCapped id rl (check_rate_limit id now between eps).1
unfolding check_rate_limit
check_rate_limit-IsCapped id now rl between eps keeps h = elim (Option-cases (find_by_id id eps)) [
  | inl absent ↦ rw (absent, check_rate_limit) h
  | inr (ep, found) ↦
      let (same, ok) = h ep found in
      let capped =
        update-IsCapped id rl (reset_windows now) eps
          (λ e f. ground (arith, h e f, reset_windows-IsWithin now e)) in
      rw (found, check_rate_limit)
        (rw (← same) (
          check_windows-IsCapped id now (reset_windows now ep) between
            (update_by_id id (reset_windows now) eps) (rw same capped) (rw same (keeps _ capped))))
]

abbrev pub HasRoom : Endpoint → Type 0
HasRoom ep =
    (ep.deliveries_this_minute < ep.rate_limit.max_per_minute)
    × (ep.deliveries_this_hour < ep.rate_limit.max_per_hour)
    × (ep.deliveries_this_day < ep.rate_limit.max_per_day)

check_windows_alone :
    (id now : ℕ) (ep : Endpoint) (eps : Collection Endpoint)
    → find_by_id id eps ≡ some ep
    → let (r, eps') = check_windows id now ep (λ c. c) eps in
      ((r ≡ allowed) ↔ HasRoom ep)
      × (find_by_id id eps' ≡ some (if has_room ep.rate_limit ep then count_delivery ep else ep))
unfolding check_windows
check_windows_alone id now ep eps found =
    (ground arith, ground (arith, find_by_id-update id id count_delivery eps))

-- With no other delivery between its calls, the limiter allows a delivery exactly when every
-- counter, restarted where its window is over, is below its cap. It then counts the delivery in
-- each window, and otherwise only restarts the windows that are over.
pub check_rate_limit_alone :
    (id now : ℕ) (eps : Collection Endpoint) {ep : Endpoint}
    → find_by_id id eps ≡ some ep
    → let (r, eps') = check_rate_limit id now (λ c. c) eps in
      let ep' = reset_windows now ep in
      ((r ≡ allowed) ↔ HasRoom ep')
      × (find_by_id id eps'
          ≡ some (if has_room ep'.rate_limit ep' then count_delivery ep' else ep'))
unfolding check_rate_limit
check_rate_limit_alone id now eps {ep} found =
    rw (found, check_rate_limit)
      (check_windows_alone id now (reset_windows now ep) (update_by_id id (reset_windows now) eps)
        (find_by_id-update_self id (reset_windows now) eps found))

abbrev pub window_ms : LimitType → ℕ
window_ms minute = 60_000
window_ms hour = 3_600_000
window_ms day = 86_400_000

-- A date that is absent or at most `w` ahead.
abbrev pub IsNear : ℕ → ℕ → Option ℕ → Type 0
IsNear now w none = Unit
IsNear now w (some at) = at ≤ now + w

-- Each window ends at most its length from now, as it does when it was started in the past.
pub record IsStarted (now : ℕ) (ep : Endpoint) : Type 0 where
  pub minute : IsNear now 60_000 ep.minute_reset_at
  pub hour : IsNear now 3_600_000 ep.hour_reset_at
  pub day : IsNear now 86_400_000 ep.day_reset_at

time_left-le : (now w : ℕ) (at : Option ℕ) → IsNear now w at → time_left at now ≤ w
time_left-le now w none h = omega arith
time_left-le now w (some at) h = omega arith

reset_windows-IsStarted :
    (now : ℕ) (ep : Endpoint) → IsStarted now ep → IsStarted now (reset_windows now ep)
reset_windows-IsStarted now ep h = record {
  minute = if-intro (IsNear now 60_000) (is_due ep.minute_reset_at now) (omega arith) h.minute;
  hour = if-intro (IsNear now 3_600_000) (is_due ep.hour_reset_at now) (omega arith) h.hour;
  day = if-intro (IsNear now 86_400_000) (is_due ep.day_reset_at now) (omega arith) h.day;
}

check_windows_wait :
    (id now : ℕ) (ep : Endpoint) (between : Collection Endpoint → Collection Endpoint)
    (eps : Collection Endpoint) (t : LimitType) (wait : ℕ)
    → IsStarted now ep
    → (check_windows id now ep between eps).0 ≡ limited t wait
    → wait ≤ window_ms t
unfolding check_windows
check_windows_wait id now ep between eps minute wait h e =
    ground (arith, time_left-le now 60_000 ep.minute_reset_at h.minute)
check_windows_wait id now ep between eps hour wait h e =
    ground (arith, time_left-le now 3_600_000 ep.hour_reset_at h.hour)
check_windows_wait id now ep between eps day wait h e =
    ground (arith, time_left-le now 86_400_000 ep.day_reset_at h.day)

-- If no window ends later than its length from now, a wait that the limiter asks for is never longer
-- than the window that is full.
pub check_rate_limit_wait :
    (id now : ℕ) (between : Collection Endpoint → Collection Endpoint) (eps : Collection Endpoint)
    {ep : Endpoint} (t : LimitType) (wait : ℕ)
    → find_by_id id eps ≡ some ep
    → IsStarted now ep
    → (check_rate_limit id now between eps).0 ≡ limited t wait
    → wait ≤ window_ms t
unfolding check_rate_limit
check_rate_limit_wait id now between eps {ep} t wait found h e =
    check_windows_wait id now (reset_windows now ep) between
      (update_by_id id (reset_windows now) eps) t wait (reset_windows-IsStarted now ep h)
      (rw (found, check_rate_limit) at e)

-- An id that no endpoint has is refused, and nothing changes.
pub check_rate_limit-absent :
    (id now : ℕ) (between : Collection Endpoint → Collection Endpoint) (eps : Collection Endpoint)
    → find_by_id id eps ≡ none
    → check_rate_limit id now between eps ≡ (not_found, eps)
unfolding check_rate_limit
check_rate_limit-absent id now between eps absent = rw (absent, check_rate_limit)
