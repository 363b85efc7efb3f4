-- ===== src/Net.antt =====
-- The commands that reach the system over the network.
pub mod Json
pub mod NetCommand
pub mod NetCommandFactory
pub mod ControlServer
pub mod ComServer
pub mod ComConnection
pub mod Examples
