-- ===== src/Dispatcher.antt =====
-- services/scheduler/internal/dispatcher: the outbound dial loop.
pub mod Row
pub mod Window
pub mod Retry
pub mod RateLimit
pub mod Queue
pub mod Suppression
pub mod Call
pub mod Tick
pub mod Outcome
pub mod Launch
pub mod Tests
