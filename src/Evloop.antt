-- ===== src/Evloop.antt =====
-- rsvim_core/src/evloop.rs: how the event loop begins.
pub mod Start
pub mod Rounds
pub mod Tests
