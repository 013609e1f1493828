-- ===== src/Dispatcher/Tests.antt =====
-- Runs of the dispatcher at concrete inputs.
pub mod Fixtures
pub mod Rounds
pub mod Outcomes
pub mod Stores
