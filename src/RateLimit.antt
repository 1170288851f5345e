-- ===== src/RateLimit.antt =====
-- Requests and tokens per minute: internal/ratelimit/limiter.go, with its in-process counters.
pub mod Specs
pub mod Memory
pub mod Redis
