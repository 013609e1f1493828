-- ===== src/Import.antt =====
-- services/lead-import: leads from files, from the API and from webhooks.
pub mod Store
pub mod Durable
pub mod Parser
pub mod Service
pub mod Webhooks
pub mod Counts
pub mod Linked
pub mod Redelivered
pub mod Tests
