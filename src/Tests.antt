-- ===== src/Tests.antt =====
-- Runs of the code at concrete inputs, and the theorems applied to them.
pub mod Codec
pub mod Agent
pub mod Walks
pub mod Requests
pub mod V3
pub mod Usm
pub mod Mibs
pub mod Notifications
