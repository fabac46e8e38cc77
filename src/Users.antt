-- ===== src/Users.antt =====
-- modules/user-management/services/user-management.service.ts: the members of a workspace.
-- A client is the shard whose database it is connected to.
pub mod Input
pub mod Members
pub mod Changes
pub mod Coverage
pub mod Deletion
pub mod Creation
pub mod Requests
pub mod Profile
pub mod History
pub mod Marker
