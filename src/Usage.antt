-- ===== src/Usage.antt =====
-- What a replica knows of failed usage writes: internal/usage/logger.go.
pub mod Logger
pub mod Journal
