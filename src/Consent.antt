-- ===== src/Consent.antt =====
-- services/consent-compliance: who may be contacted, and the ledger of consents.
pub mod Store
pub mod Durable
pub mod Gates
pub mod Verdict
pub mod Withdrawal
pub mod Faults
pub mod Tests
