-- ===== src/Gateway/Exposure.antt =====
-- The exposure that the gateway keeps is that of its working orders: the invariant, and what keeps it.
pub mod Open
pub mod Quantities
pub mod Tracked
pub mod Kept
pub mod Run
