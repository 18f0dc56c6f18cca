-- ===== src/Checker.antt =====
-- The chaos checker of checker/pkg: the MONITOR ring buffer, the slot of a key and
-- the cluster client.
pub mod Ring
pub mod Slot
pub mod Client
pub mod Keys
pub mod Tags
pub mod Monitor
