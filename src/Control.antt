-- ===== src/Control.antt =====
-- The control of power, control/.
pub mod Defs
pub mod Ports
pub mod Breakers
pub mod PowerSubsystemConfig
pub mod PowerSubsystem
pub mod PowerSystem
pub mod MotionEngine
pub mod Examples
