-- ===== src/State.antt =====
-- The states of the system and the model, state/*.
pub mod StateMap
pub mod Model
pub mod Examples
