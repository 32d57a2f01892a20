-- ===== src/Checkouts.antt =====
-- The checkouts component.
pub mod Rules
pub mod Models
pub mod Repository
pub mod Service
