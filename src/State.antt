-- ===== src/State.antt =====
-- The editing modes and the state machine: rsvim_core/src/state.rs and rsvim_core/src/state.
pub mod Mode
pub mod Keys
pub mod Fsm
pub mod Tests
