-- ===== src/Lib.antt =====
-- A model of the webhook delivery service: what happens to an event from its sending or scheduling
-- to its delivery, its retries and its end, what a user's plan and credits allow, and who may do what
-- in projects and workspaces.
--
-- The program is a NestJS server. `send` stores an event, scrubbed and encrypted, and queues a job
-- for it; a scheduled event waits for its time and then does the same. Events are stored in MongoDB
-- and delivered by jobs of a Bull queue;
-- `deliver` takes one event through the guards of its endpoint (maintenance windows, filter rules,
-- rate limits, circuit breakers, address and size checks), makes the request, and settles the
-- outcome. Failures go through `handleDeliveryFailure`, which queues a retry or gives the event to
-- the dead-letter queue; periodic jobs queue what was left. Billing decides on access by the user's
-- subscription, and keeps a ledger of prepaid credits; resellers bill others for their events.
-- Workspaces are teams with an owner, projects belong to a user and may be lent to a workspace, and
-- roles, built in or made for a project, say what a member may do.
--
-- Files and the code they model:
--   Prelude        shared tests, lists, integers, collections of documents, actions with exceptions
--   Filters        src/utils/filter-engine.service.ts
--   Delivery.Documents   the schemas of events, endpoints and delivery logs
--   Delivery.Retry       src/utils/retry.util.ts
--   Delivery.RateLimiter src/modules/endpoints/endpoint-rate-limiter.service.ts
--   Delivery.Breaker     src/modules/delivery/shared-breaker.service.ts
--   Delivery.LogWriter   src/modules/delivery/delivery-log-writer.service.ts
--   Delivery.World       the state that deliveries share, and what they take from outside
--   Delivery.Failure     handleDeliveryFailure and scheduleRetry of
--                        src/modules/delivery/delivery.service.ts
--   Delivery.Deliver     deliver of the same file, one definition for each stage, and
--                        src/utils/maintenance-window.ts
--   Delivery.Worker      src/modules/delivery/retry-worker.service.ts, and replay,
--                        cleanExpiredEvents and getBreaker of delivery.service.ts
--   Billing.Documents    src/modules/billing/schemas
--   Billing.Credits      src/modules/billing/credits.service.ts
--   Billing.Trial        src/modules/billing/trial.service.ts
--   Billing.Plans, Billing.Upgrades, Billing.Invoices
--                        src/modules/billing/subscription.service.ts
--   Billing.Resellers    src/modules/billing/reseller.service.ts
--   Workspaces           src/modules/workspaces/workspaces.service.ts
--   Projects             src/modules/projects/projects.service.ts
--   Permissions          src/modules/permissions: the constants, with Permissions.Service for the
--                        service and its cache, and Permissions.Guard for the guard
--   PayloadCrypto        src/utils/payload-crypto.ts
--   PiiScrubber          src/utils/pii-scrubber.ts
--   Events               the store of src/modules/events, deduplication and scheduling, with
--                        Events.Sending, Events.Recovery and Events.Erasure for
--                        src/modules/events/events.service.ts and
--                        src/modules/deduplication/deduplication.service.ts
--   Scheduling           src/modules/scheduling/scheduling.service.ts
--   Batch                src/modules/delivery/batch-delivery.service.ts
--   ApiKeys              src/modules/apikeys/apikeys.service.ts
--   SafeHttp             src/utils/safe-http.ts; for a delivery and a batch its check is a parameter
--   Tunnel               src/modules/tunnel/tunnel.service.ts
--   Pagination           src/common/pagination/cursor.ts
--
-- Representation. A collection is a list of documents keyed by their ids; `findByIdAndUpdate`,
-- `updateMany` and their kin are functions on it. An operation that can throw returns a result
-- beside the new state, so what was written before an exception stays written. Ids are numbers, a
-- date is its count of milliseconds, and each call takes its time as an argument: `now`, and
-- `later` after a response. Balances are integers; counts and dates are natural numbers. The
-- loops run over lists, but for the `while` of replayDlq, `Events.Recovery.replay_rounds`: it has a
-- number of rounds, and one round more than there are dead events is enough.
-- An event as `Events` sees it (project, key, payload) and as `Delivery` does (status, retries) are
-- two records of the same document, each with the fields that its services use.
--
-- `endpoint.id`. `deliver` loads the endpoint with `lean()` or from the cache, and what it loads has no
-- `id`: `Env.undefined_id` stands for `undefined` there, and no endpoint is stored under it. The
-- limiter refuses such an id, so what follows it, from `deliver_through_breakers` on, is stated of
-- that part of `deliver` itself.
--
-- Other tasks. Where a method awaits between two database calls whose order matters (the
-- limiter, the deduction of credits, the change of a role, the usage that a monthly invoice
-- bills), what others do there is an argument; of the limiter and the deduction, theorems ask
-- only that it keeps the invariant in question. The log writer is a step relation, in which
-- calls, the timer and the database's answers come in any order. A cancellation during a
-- dispatch is put between the steps of the run by its theorem. An operation otherwise runs
-- without interruption.
--
-- Outside the repository, as parameters: `External` (HMAC, the rounding of GST, unique
-- indexes), the `Outside` of each module (lower case, SHA-256, JSON texts, base64url, the start
-- of a month), `Primitives` (the cipher and the encodings of keys), `Keys` of PiiScrubber
-- (array indices and inherited names), `Network` of Batch and `Platform` of SafeHttp (how Node
-- reads an address, the name service, the answer to a request), `Js` (JavaScript's properties
-- of strings and arrays, number conversion, includes), `Env` (the queue, encryption, byte
-- length, `undefined`) and `Answers` (clock, DNS, the check of a target, the response, the
-- token). `IsQueue` is what Bull documents of adding a job under an id.
--
-- Not modelled: descriptions, log texts, realtime notifications, mails except those of the
-- hourly billing job, headers and signatures of the request, failures of the database other
-- than unique indexes; accounts and sessions, analytics, search, notifications, and routing.
pub mod Prelude
pub mod Filters
pub mod Delivery
pub mod Billing
pub mod Workspaces
pub mod Permissions
pub mod PayloadCrypto
pub mod PiiScrubber
pub mod Pagination
pub mod Scheduling
pub mod Tunnel
pub mod Projects
pub mod Events
pub mod Batch
pub mod SafeHttp
pub mod ApiKeys
