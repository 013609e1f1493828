-- ===== src/Picker.antt =====
-- services/scheduler: the claiming of leads by workers (internal/picker, internal/store).
pub mod Store
pub mod Claims
pub mod Order
pub mod Durable
pub mod Refinement
pub mod Races
pub mod Tests
