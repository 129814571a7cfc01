-- ===== src/SmartRoute.antt =====
-- The choice of a cheaper model (backend/internal/smartroute).
pub mod Shadow
pub mod Deciding
mod Tests
