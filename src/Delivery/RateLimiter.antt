-- ===== src/Delivery/RateLimiter.antt =====
-- endpoints/endpoint-rate-limiter.service.ts: at most so many deliveries a minute, an hour and a
-- day. `between` is what other deliveries do between the two database calls.
pub mod Laws
mod Tests
use webhook_backend.Prelude.{
  ℕ, ◌+◌, ◌-◌, max, Bool, true, false, ◌&&◌, Option, some, none, Collection, find_by_id,
  update_by_id, ltb, leb, if◌then◌else◌,
}
use webhook_backend.Delivery.Documents.{Endpoint, RateLimitConfig}

pub data LimitType : Type 0 where
  minute hour day : LimitType

pub data RateLimitResult : Type 0 where
  allowed : RateLimitResult
  not_found : RateLimitResult
  limited : LimitType → ℕ → RateLimitResult

-- `{ $lt: ['$minuteResetAt', now] }`: null sorts before every date.
abbrev pub is_due : Option ℕ → ℕ → Bool
is_due none now = true
is_due (some at) now = ltb at now

-- The pipeline update, which restarts each window that is over.
abbrev pub reset_windows : ℕ → Endpoint → Endpoint
reset_windows now ep = record ep {
  deliveries_this_minute = if is_due ep.minute_reset_at now then 0 else ep.deliveries_this_minute;
  minute_reset_at =
      if is_due ep.minute_reset_at now then some (now + 60_000) else ep.minute_reset_at;
  deliveries_this_hour = if is_due ep.hour_reset_at now then 0 else ep.deliveries_this_hour;
  hour_reset_at = if is_due ep.hour_reset_at now then some (now + 3_600_000) else ep.hour_reset_at;
  deliveries_this_day = if is_due ep.day_reset_at now then 0 else ep.deliveries_this_day;
  day_reset_at = if is_due ep.day_reset_at now then some (now + 86_400_000) else ep.day_reset_at;
}

-- `new Date(at!).getTime() - now`; after the update the date is never null.
abbrev pub time_left : Option ℕ → ℕ → ℕ
time_left none now = 0
time_left (some at) now = at - now

-- The filter of `findOneAndUpdate`: the caps are those read before, the counters those of now.
abbrev pub has_room : RateLimitConfig → Endpoint → Bool
has_room rl ep =
    ltb ep.deliveries_this_minute rl.max_per_minute
    && (ltb ep.deliveries_this_hour rl.max_per_hour && ltb ep.deliveries_this_day rl.max_per_day)

abbrev pub count_delivery : Endpoint → Endpoint
count_delivery ep = record ep {
  deliveries_this_minute = ep.deliveries_this_minute + 1;
  deliveries_this_hour = ep.deliveries_this_hour + 1;
  deliveries_this_day = ep.deliveries_this_day + 1;
}

abbrev pub has_room? : RateLimitConfig → Option Endpoint → Bool
has_room? rl none = false
has_room? rl (some ep) = has_room rl ep

-- The second database call, and the answer when another delivery was faster.
pub take_slot : ℕ → ℕ → Endpoint → Collection Endpoint → RateLimitResult × Collection Endpoint
take_slot id now reset eps =
    if has_room? reset.rate_limit (find_by_id id eps)
    then (allowed, update_by_id id count_delivery eps)
    else (limited minute (max 500 (time_left reset.minute_reset_at now)), eps)

-- The three checks on the counters that the first call returned.
pub check_windows :
    ℕ
    → ℕ
    → Endpoint
    → (between : Collection Endpoint → Collection Endpoint) → Collection Endpoint
    → RateLimitResult × Collection Endpoint
unfolding take_slot
check_windows id now reset between eps =
    if leb reset.rate_limit.max_per_minute reset.deliveries_this_minute
    then (limited minute (time_left reset.minute_reset_at now), eps)
    else if leb reset.rate_limit.max_per_hour reset.deliveries_this_hour
    then (limited hour (time_left reset.hour_reset_at now), eps)
    else if leb reset.rate_limit.max_per_day reset.deliveries_this_day
    then (limited day (time_left reset.day_reset_at now), eps)
    else take_slot id now reset (between eps)

-- `checkRateLimit`
unfoldable pub check_rate_limit :
    ℕ
    → ℕ
    → (between : Collection Endpoint → Collection Endpoint) → Collection Endpoint
    → RateLimitResult × Collection Endpoint
unfolding check_windows
check_rate_limit id now between eps = elim (find_by_id id eps) [
  | none ↦ (not_found, eps)
  | some ep ↦
      check_windows id now (reset_windows now ep) between (update_by_id id (reset_windows now) eps)
]
