-- ===== src/Core.antt =====
-- The types and the checksum that every component shares (cpp/include/asterion/core).
pub mod Types
pub mod Checksum
