-- ===== src/Examples.antt =====
-- Runs of the definitions on small tables, and the theorems applied to them.
mod Data
mod Pricing
mod Parameters
mod Staff
mod Rebook
mod Accounts
mod Rules
mod Requests
mod Payments
mod Users
mod Auth
