-- ===== src/Access.antt =====
-- Who may call the gateway (backend/internal/server/middleware).
pub mod Auth
pub mod Counters
pub mod RateLimit
pub mod Register
mod Tests
