-- ===== src/Identity.antt =====
-- services/lead-identity: one contact for a phone of a tenant.
pub mod Phone
pub mod Durable
pub mod Service
pub mod Merged
pub mod Tests
