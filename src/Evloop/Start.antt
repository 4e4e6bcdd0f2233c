-- ===== src/Evloop/Start.antt =====
-- rsvim_core/src/evloop.rs: the buffers, the window and the cursor that the event loop begins with. What
-- the source writes to the log is left out. A window of the tree has the number of its own root.
pub mod Buffers
pub mod Windows
use rsvim.Prelude.{ℕ, List, [], ◌∷◌, Outcome, ok, ◌>>=◌, unwrap, pos, lookup, first_key_value}
use rsvim.Cart.{U16Size}
use rsvim.Tree.Geo.{Geo}
use rsvim.Tree.Itree.{Inode, new_inode}
use rsvim.Tree.Widgets.{Widgets, TreeNode, window, cursor, Tree}
use rsvim.Tree.Widgets
use rsvim.Buf.Rope.{Texts}
use rsvim.Buf.Buffer.{FileTypes}
use rsvim.Buf.Manager.{FileSystem, BuffersManager, new_file_buffer, new_empty_buffer}
use rsvim.Window.Widget.{WindowLocalOptions, Window, CursorData, new_cursor}
use rsvim.Window.Widget

-- The widgets of the tree.
abbrev pub widgets : Geo → Widgets
widgets g = record { RootContainer = Unit {0}; Window = Window g; Cursor = CursorData }

module _ {x : Texts} {f : FileTypes} where
  -- The loop over the input files: a file that cannot be opened is passed over.
  unfoldable pub open_files :
      FileSystem x f → List f.PathBuf → BuffersManager x f → Outcome (BuffersManager x f)
  open_files fs [] buffers = ok buffers
  open_files fs (file ∷ files) buffers = do
    maybe_buf ← new_file_buffer fs file buffers
    open_files fs files maybe_buf.0

  unfoldable pub init_buffers :
      FileSystem x f → List f.PathBuf → BuffersManager x f → Outcome (BuffersManager x f)
  init_buffers fs [] buffers = do r ← new_empty_buffer buffers; ok r.0
  init_buffers fs (file ∷ files) buffers = open_files fs (file ∷ files) buffers

-- The numbers that `next_node_id` hands out to the nodes of the window and to the cursor.
pub record NodeIds : Type 0 where
  pub window_root : ℕ
  pub window_content : ℕ
  pub cursor : ℕ

module _ (g : Geo) where
  abbrev pub window_shape : U16Size → g.IRect
  window_shape canvas_size =
      g.irect (record { x = pos 0; y = pos 0 })
        (record { x = pos canvas_size.width; y = pos canvas_size.height })

  abbrev pub cursor_shape : g.IRect
  cursor_shape = g.irect (record { x = pos 0; y = pos 0 }) (record { x = pos 1; y = pos 1 })

  abbrev pub window_node : NodeIds → U16Size → Window g → Inode g (TreeNode (widgets g))
  window_node ids canvas_size w = new_inode (window w) ids.window_root (window_shape canvas_size)

  abbrev pub cursor_node : NodeIds → Inode g (TreeNode (widgets g))
  cursor_node ids = new_inode (cursor new_cursor) ids.cursor cursor_shape

module _ {g : Geo} where
  unfoldable pub init_windows :
      {x : Texts} {f : FileTypes}
      → NodeIds
      → U16Size
      → WindowLocalOptions
      → BuffersManager x f
      → Tree g (widgets g)
      → Outcome (Tree g (widgets g))
  init_windows ids canvas_size local_options buffers tree = do
    first ← unwrap (first_key_value buffers.buffers)
    buf ← unwrap (lookup first.1 buffers.arcs)
    w ← Widget.new ids.window_root ids.window_content (window_shape g canvas_size) buf local_options
    with_window ← Widgets.bounded_insert tree tree.base.root_id (window_node g ids canvas_size w)
    with_cursor ← Widgets.bounded_insert with_window.0 ids.window_root (cursor_node g ids)
    ok with_cursor.0
