-- ===== src/Access.antt =====
-- src/authorization, src/guards and the grant policies of modules/user-management.
pub mod Permissions
pub mod Guards
pub mod Grants
