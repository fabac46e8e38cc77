-- ===== src/Tests.antt =====
-- Runs of the operations on concrete databases.
pub mod Identity
pub mod Access
pub mod Users
pub mod Workspaces
pub mod Auth
pub mod Query
pub mod Storage
pub mod Files
