-- ===== src/Ivr.antt =====
-- The IVR: core/ivr. `Flow` is the data of a flow, `Engine` the state machine of one session.
pub mod Flow
pub mod Engine
pub mod Transfer
pub mod Coordinator
