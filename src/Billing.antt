-- ===== src/Billing.antt =====
-- services/billing-meter: what calls and messages cost, and the caps on it.
pub mod Pricing
pub mod Store
pub mod Service
pub mod Durable
pub mod Ledger
pub mod Redelivery
pub mod Tests
