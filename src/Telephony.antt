-- ===== src/Telephony.antt =====
-- services/telephony-adapter: the providers that place calls, and the cap on concurrent calls.
pub mod Limiter
pub mod FakeLimiter
pub mod Store
pub mod Router
pub mod Tests
