-- ===== src/Identity.antt =====
-- src/identity: the control-plane directory of email addresses.
pub mod Reservation
pub mod Release
pub mod Resolve
pub mod Coverage
pub mod Batch
