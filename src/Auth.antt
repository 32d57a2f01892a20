-- ===== src/Auth.antt =====
-- Authentication (auth/): the stored tokens, the signing and hashing that they rest on, the service,
-- and what a caller may do where.
pub mod Models
pub mod Access
pub mod Security
pub mod Service
