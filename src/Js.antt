-- ===== src/Js.antt =====
-- rsvim_core/src/js.rs and js: the host's part of the JavaScript runtime.
pub mod Names
pub mod Loader
pub mod Module
pub mod Execute
pub mod Options
pub mod Exceptions
pub mod Timers
pub mod Graph
pub mod Sample
pub mod Tests
