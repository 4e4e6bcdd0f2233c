-- ===== src/Tree.antt =====
-- The widget tree of rsvim_core/src/ui/tree.rs and rsvim_core/src/ui/tree/internal: the shapes of the
-- nodes, the tree of nodes, and the tree with its windows and its cursor.
pub mod Geo
pub mod Shapes
pub mod Clip
pub mod Bound
pub mod Itree
pub mod Iter
pub mod Options
pub mod Widgets
pub mod Tests
