-- ===== src/Router.antt =====
-- The package backend/internal/router.
pub mod Breaker
pub mod Deployment
pub mod State
pub mod Sort
pub mod Order
pub mod Resolve
pub mod Fallback
mod Tests
