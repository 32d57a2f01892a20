-- ===== src/Users.antt =====
-- Users and their groups (users/): the kinds of group and the codes, the rows, the queries, and the
-- two services.
pub mod Domain
pub mod Models
pub mod GroupRepository
pub mod Repository
pub mod Changes
pub mod GroupService
pub mod Service
