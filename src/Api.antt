-- ===== src/Api.antt =====
-- The handlers of internal/api.
pub mod Fallback
