-- ===== src/Buf.antt =====
-- Buffers: rsvim_core/src/buf.rs, with the names of the control codes of
-- rsvim_core/src/defaults/grapheme.rs and the options of rsvim_core/src/buf/opt.rs.
pub mod Rope
pub mod Ascii
pub mod Buffer
pub mod Symbols
pub mod Manager
pub mod Sample
mod Tests
