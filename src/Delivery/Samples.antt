-- ===== src/Delivery/Samples.antt =====
-- An endpoint, an event and a world of deliveries, for the tests.
use webhook_backend.Prelude.{true, false, some, none, List, [], ◌∷◌, if◌then◌else◌, refl}
use webhook_backend.Filters.{Js, null}
use webhook_backend.Delivery.Documents.{
  WebhookEvent, Endpoint, EndpointStatus, pending, http, exponential, Job, DeliveryLog,
}
use webhook_backend.Delivery.Breaker.{Config}
use webhook_backend.Delivery.World.{World, Env, Answers, IsQueue, knows_id}

abbrev pub js : Js
js = record { builtin_property = λ v k. none; to_number = λ v. none; includes = λ s v. false }

-- A queue that ignores a job whose id it knows.
abbrev pub add_new_job : Job → List Job → List Job
add_new_job j jobs = if knows_id j.id jobs then jobs else j ∷ jobs

pub add_new_job-IsQueue : IsQueue add_new_job
add_new_job-IsQueue = record {
  adds = λ j jobs fresh. rw fresh refl;
  ignores = λ j jobs known. rw known refl;
}

abbrev pub config : Config
config = record { window_ms = 30_000; reset_ms = 30_000; threshold = 3 }

abbrev pub env : Env
env = record {
  js = js;
  add_job = add_new_job;
  breaker = config;
  redis_up = true;
  byte_length = λ v. 10;
  open_payload = λ v. v;
  undefined_id = 0;
}

abbrev pub endpoint : Endpoint
endpoint = record {
  status = EndpointStatus.active;
  endpoint_type = http;
  url = "https://example.com/hook";
  allowed_ips = [];
  max_retries = 5;
  retry_strategy = exponential;
  retry_fixed_delay_seconds = 60;
  rate_limit = record { max_per_minute = 2; max_per_hour = 5; max_per_day = 9 };
  filter_rules = [];
  failure_count = 0;
  last_failure_at = none;
  last_success_at = none;
  total_delivered = 0;
  total_failed = 0;
  deliveries_this_minute = 1;
  deliveries_this_hour = 1;
  deliveries_this_day = 1;
  minute_reset_at = some 60_000;
  hour_reset_at = some 3_600_000;
  day_reset_at = some 86_400_000;
  canary_url = none;
  canary_percent = 0;
  canary_delivered = 0;
  canary_failed = 0;
  max_payload_bytes = 0;
  maintenance_windows = [];
  token_url = none;
  shadow_url = none;
}

abbrev pub event : WebhookEvent
event = record {
  project_id = 1;
  endpoint_id = 7;
  event_type = "order.paid";
  payload = null;
  status = pending;
  retry_count = 0;
  next_retry_at = none;
  last_attempt_at = none;
  delivered_at = none;
  dead_at = none;
  expires_at = none;
  last_error = none;
}

abbrev pub world : World
world = record {
  events = (3, event) ∷ [];
  endpoints = (7, endpoint) ∷ [];
  cache = [];
  jobs = [];
  dead_letters = [];
  logs = [];
  metrics = [];
  breakers = [];
  tokens = [];
  requests = [];
}

-- At 10 ms after the epoch, with a response of 200 a fifth of a second later.
abbrev pub answers : Answers
answers = record {
  now = 10;
  later = 210;
  breaker_opened = false;
  resolved_ip = none;
  canary_draw = λ p. false;
  url_is_safe = λ u. true;
  response = some 200;
  upload_succeeds = true;
  token_lifetime = some 3_600_000;
}

abbrev pub row : DeliveryLog
row = record {
  event_id = 3;
  endpoint_id = 7;
  attempt = 1;
  success = true;
  status_code = some 200;
  latency_ms = 200;
  attempted_at = 210;
}
