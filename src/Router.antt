-- ===== src/Router.antt =====
-- Which deployment serves a request: internal/router/router.go.
pub mod Types
pub mod Weighted
pub mod Breaker
pub mod Strategy
pub mod Select
pub mod Refresh
pub mod Policies
