-- ===== src/Delivery/World.antt =====
-- The state that deliveries share, and what they take from outside the repository.
use Prim.Native.String.{String}
use webhook_backend.Prelude.{
  ℕ, Bool, Option, List, ◌∷◌, ◌≡◌, ◌==◌, true, false, ◌&&◌, Collection, find_by_id, or_default, any,
}
use webhook_backend.Filters.{Js, Json}
use webhook_backend.Delivery.Documents.{
  WebhookEvent, Endpoint, DeliveryLog, Job, JobId, retry, drip, replay, reschedule,
}
use webhook_backend.Delivery.Breaker.{Config, Keys, no_keys}

-- The calls of `analytics.record`.
pub data Metric : Type 0 where
  filtered_metric rate_limited_metric delivered_metric failed_metric dead_metric : ℕ → Metric

-- The three requests that a delivery can make: for a token, of the event, and of its shadow copy.
pub data RequestKind : Type 0 where
  token webhook shadow : RequestKind

pub record Request : Type 0 where
  pub kind : RequestKind
  pub event_id : ℕ
  pub target : String

pub record World : Type 0 where
  pub events : Collection WebhookEvent
  pub endpoints : Collection Endpoint
  -- The `ep:` entries of the endpoint cache.
  pub cache : Collection Endpoint
  -- Every job that the queue knows, waiting, running or kept after completion.
  pub jobs : List Job
  pub dead_letters : List (ℕ × ℕ)
  -- The rows given to the log writer, the newest first.
  pub logs : List DeliveryLog
  pub metrics : List Metric
  pub breakers : Collection Keys
  -- When the tokens of `oauth2TokenCache` expire.
  pub tokens : Collection ℕ
  -- The requests made, the newest first.
  pub requests : List Request

abbrev pub same_id : JobId → JobId → Bool
same_id (retry e n) (retry e' n') = e == e' && n == n'
same_id (drip e n) (drip e' n') = e == e' && n == n'
same_id (replay e n) (replay e' n') = e == e' && n == n'
same_id (reschedule e n) (reschedule e' n') = e == e' && n == n'
same_id _ _ = false

-- Whether the queue knows a job under this id.
abbrev pub knows_id : JobId → List Job → Bool
knows_id id jobs = any (λ j. same_id j.id id) jobs

pub record Env : Type 0 where
  pub js : Js
  -- `queue.add`
  pub add_job : Job → List Job → List Job
  pub breaker : Config
  pub redis_up : Bool
  -- `Buffer.byteLength(JSON.stringify(payload))`
  pub byte_length : Json → ℕ
  -- The payload as stored, decrypted where it is an `enc:` text (utils/payload-crypto.ts).
  pub open_payload : Json → Json
  -- What stands for `undefined` among the ids. `id` is a virtual of Mongoose, which the endpoint that
  -- `deliver` loads, with `lean()` or from the cache, does not have.
  pub undefined_id : ℕ

-- What the outside answers during one delivery: the time at its start and after the response, the
-- local circuit breaker, the address of the endpoint's host, the canary draw for a percentage,
-- whether `assertSafeUrl` passes a target, the response's status if there is one, and whether an
-- upload to S3 or GCS succeeds.
pub record Answers : Type 0 where
  pub now : ℕ
  pub later : ℕ
  pub breaker_opened : Bool
  pub resolved_ip : Option String
  pub canary_draw : ℕ → Bool
  pub url_is_safe : String → Bool
  pub response : Option ℕ
  pub upload_succeeds : Bool
  -- For how many milliseconds the token is good, if the token request succeeds.
  pub token_lifetime : Option ℕ

-- What Bull documents of `queue.add`: a job is added, unless its id is already known.
pub record IsQueue (add_job : Job → List Job → List Job) : Type 0 where
  pub adds : (j : Job) (jobs : List Job) → knows_id j.id jobs ≡ false → add_job j jobs ≡ j ∷ jobs
  pub ignores : (j : Job) (jobs : List Job) → knows_id j.id jobs ≡ true → add_job j jobs ≡ jobs

abbrev pub breaker_keys : ℕ → World → Keys
breaker_keys endpoint_id w = or_default (find_by_id endpoint_id w.breakers) no_keys

-- `endpoint.id` in `deliver` and in what it calls, whichever endpoint the event is for
abbrev pub endpoint_id_of : Env → WebhookEvent → ℕ
endpoint_id_of env event = env.undefined_id
