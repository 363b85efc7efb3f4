-- ===== src/Faultmgr.antt =====
-- The fault manager, faultmgr/: its bitmaps, one manager, and the manager of the whole system.
pub mod FaultBit
pub mod FaultStatusBits
pub mod Masks
pub mod BasicFaultMgr
pub mod SafeMode
pub mod FaultMgr
pub mod Examples
