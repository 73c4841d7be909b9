-- ===== src/Billing.antt =====
-- Billing (src/modules/billing): the documents that the services share, and one module for each
-- service.
pub mod Documents
pub mod External
pub mod Invoices
pub mod Credits
pub mod Plans
pub mod Trial
pub mod Upgrades
pub mod Resellers
