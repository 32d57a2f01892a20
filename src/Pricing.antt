-- ===== src/Pricing.antt =====
-- The pricing component.
pub mod Domain
pub mod Repository
pub mod Service
