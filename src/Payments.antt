-- ===== src/Payments.antt =====
-- The payments component.
pub mod Enums
pub mod Models
pub mod Port
pub mod Repository
pub mod Apply
pub mod Service
pub mod Stable
