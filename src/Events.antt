-- ===== src/Events.antt =====
-- action_events: the append-only record of what happened to bookings and payments.
pub mod Models
pub mod Service
