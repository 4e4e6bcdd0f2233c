-- ===== src/Viewport.antt =====
-- The viewport of a window: rsvim_core/src/ui/widget/window/viewport.rs, and its synchronization with
-- the buffer, rsvim_core/src/ui/widget/window/viewport/sync.rs.
pub mod Rows
pub mod Scan
pub mod Words
pub mod Sync
pub mod View
pub mod Tests
