-- ===== src/Window.antt =====
-- The widgets of a window: rsvim_core/src/ui/widget/window/content.rs.
pub mod Content
pub mod Widget
mod Tests
