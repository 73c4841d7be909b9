-- ===== src/Delivery/Documents.antt =====
-- The documents that a delivery reads and writes: events, endpoints, delivery logs and queued jobs.
-- Ids are numbers and dates are milliseconds. Fields that no modelled operation reads or writes
-- are left out.
use Prim.Native.String.{String}
use webhook_backend.Prelude.{ℕ, Bool, Option, List, ◌==◌}
use webhook_backend.Filters.{Json, FilterRule}

pub data EventStatus : Type 0 where
  pending delivered failed dead filtered rate_limited rate_queued : EventStatus
  retrying scheduled : EventStatus

-- The enum's members as numbers, to compare them.
abbrev pub event_status_code : EventStatus → ℕ
event_status_code pending = 0
event_status_code delivered = 1
event_status_code failed = 2
event_status_code dead = 3
event_status_code filtered = 4
event_status_code rate_limited = 5
event_status_code rate_queued = 6
event_status_code retrying = 7
event_status_code scheduled = 8

abbrev pub is_status : EventStatus → EventStatus → Bool
is_status a b = event_status_code a == event_status_code b

-- `lastError`: the status code of the response, if there was one, or the time-to-live.
pub data LastError : Type 0 where
  delivery_error : Option ℕ → LastError
  ttl_exceeded : LastError

pub record WebhookEvent : Type 0 where
  pub project_id : ℕ
  pub endpoint_id : ℕ
  pub event_type : String
  pub payload : Json
  pub status : EventStatus
  pub retry_count : ℕ
  pub next_retry_at : Option ℕ
  pub last_attempt_at : Option ℕ
  pub delivered_at : Option ℕ
  pub dead_at : Option ℕ
  pub expires_at : Option ℕ
  pub last_error : Option LastError

pub data EndpointStatus : Type 0 where
  active paused disabled : EndpointStatus

pub data EndpointType : Type 0 where
  http s3 gcs : EndpointType

pub data RetryStrategy : Type 0 where
  exponential linear fixed : RetryStrategy

pub record MaintenanceWindow : Type 0 where
  pub day_of_week : ℕ
  pub start_hour : ℕ
  pub end_hour : ℕ

pub record RateLimitConfig : Type 0 where
  pub max_per_minute : ℕ
  pub max_per_hour : ℕ
  pub max_per_day : ℕ

pub record Endpoint : Type 0 where
  pub status : EndpointStatus
  pub endpoint_type : EndpointType
  pub url : String
  pub allowed_ips : List String
  pub max_retries : ℕ
  pub retry_strategy : RetryStrategy
  pub retry_fixed_delay_seconds : ℕ
  pub rate_limit : RateLimitConfig
  pub filter_rules : List FilterRule
  pub failure_count : ℕ
  pub last_failure_at : Option ℕ
  pub last_success_at : Option ℕ
  pub total_delivered : ℕ
  pub total_failed : ℕ
  pub deliveries_this_minute : ℕ
  pub deliveries_this_hour : ℕ
  pub deliveries_this_day : ℕ
  pub minute_reset_at : Option ℕ
  pub hour_reset_at : Option ℕ
  pub day_reset_at : Option ℕ
  -- Nothing where it is null or empty.
  pub canary_url : Option String
  pub canary_percent : ℕ
  pub canary_delivered : ℕ
  pub canary_failed : ℕ
  pub max_payload_bytes : ℕ
  pub maintenance_windows : List MaintenanceWindow
  -- `oauth2Config.tokenUrl`, where the endpoint is authenticated by OAuth2.
  pub token_url : Option String
  pub shadow_url : Option String

pub record DeliveryLog : Type 0 where
  pub event_id : ℕ
  pub endpoint_id : ℕ
  pub attempt : ℕ
  pub success : Bool
  pub status_code : Option ℕ
  pub latency_ms : ℕ
  pub attempted_at : ℕ

-- The ids that the services give their jobs.
pub data JobId : Type 0 where
  retry drip replay reschedule : ℕ → ℕ → JobId
  automatic : JobId

pub record Job : Type 0 where
  pub id : JobId
  pub event_id : ℕ
  pub delay : ℕ
