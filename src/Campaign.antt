-- ===== src/Campaign.antt =====
-- services/campaign: the life cycle of a campaign and the checks before its launch.
pub mod Store
pub mod Preflight
pub mod Service
pub mod Launching
pub mod Autopausing
pub mod Vetting
pub mod Tests
