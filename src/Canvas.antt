-- ===== src/Canvas.antt =====
-- rsvim_core/src/ui/canvas.rs and the files below it: the frame that the widgets draw on, and the
-- commands that bring the terminal from the previous frame to it.
pub mod Cell
pub mod Cursor
pub mod Iframe
pub mod Frame
pub mod Shader
pub mod Terminal
pub mod Diff
pub mod Shade
pub mod Draw
pub mod Session
pub mod Tests
