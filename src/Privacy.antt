-- ===== src/Privacy.antt =====
-- The redaction of personal data (backend/internal/privacy).
pub mod Checks
pub mod Bytes
pub mod Redactor
pub mod Rehydrator
pub mod Vault
mod Tests
