-- ===== src/Delivery.antt =====
-- Delivering webhooks (src/modules/delivery, src/modules/endpoints and src/utils): the documents,
-- and one module for each service that a delivery runs through.
pub mod Documents
pub mod Retry
pub mod RateLimiter
pub mod Breaker
pub mod LogWriter
pub mod World
pub mod Failure
pub mod Deliver
pub mod Worker
pub mod Samples
