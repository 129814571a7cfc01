-- ===== src/Caches.antt =====
-- The caches of responses (backend/internal/semcache and backend/internal/respcache).
pub mod Semantic
