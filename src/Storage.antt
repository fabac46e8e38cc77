-- ===== src/Storage.antt =====
-- The storage service, services/storage.
pub mod State
pub mod Paths
pub mod Reading
pub mod Rows
pub mod Content
pub mod Folders
pub mod Files
pub mod Uploads
pub mod Middleware
pub mod ShareLinks
