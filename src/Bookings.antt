-- ===== src/Bookings.antt =====
-- The bookings component: its data, its rules, its repository and its service.
pub mod Enums
pub mod Models
pub mod Repository
pub mod Integrity
pub mod Service
pub mod Availability
pub mod Rules
pub mod Closures
