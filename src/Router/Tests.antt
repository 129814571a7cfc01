-- ===== src/Router/Tests.antt =====
-- The router's theorems at concrete inputs.
pub mod Fixtures
mod Breaking
mod Ordering
mod Resolving
mod Executing
