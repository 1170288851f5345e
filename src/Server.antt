-- ===== src/Server.antt =====
-- The console's login: internal/server/login_throttle.go.
pub mod Throttle
