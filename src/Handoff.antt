-- ===== src/Handoff.antt =====
-- services/handoff: hot leads are handed to salespeople, who must acknowledge them in time.
pub mod Store
pub mod Assignment
pub mod Service
pub mod Once
pub mod Chosen
pub mod Alarms
pub mod Reassigned
pub mod Tests
