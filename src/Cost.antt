-- ===== src/Cost.antt =====
-- Exact money: internal/store/microcents.go, internal/store/pricing_tiers.go and
-- internal/budget/token_cost.go.
pub mod Microcents
pub mod Tokens
