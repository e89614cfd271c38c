-- ===== src/Fsm.antt =====
-- The conversation state machine: core/fsm.
pub mod Schema
pub mod Engine
pub mod Guards
pub mod Actions
