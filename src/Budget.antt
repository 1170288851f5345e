-- ===== src/Budget.antt =====
-- Spend limits: internal/budget/service.go.
pub mod Limits
pub mod Admit
pub mod Settle
