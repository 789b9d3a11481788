-- ===== src/AccessControl.antt =====
-- The role based access control contract, contracts/access-control/src.
pub mod Types
pub mod Roles
pub mod Grants
pub mod Queries
pub mod Reachable
mod Examples
