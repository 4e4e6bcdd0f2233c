-- ===== src/Window/Widget.antt =====
-- rsvim_core/src/ui/widget/window.rs: a window is a tree of a root container and the content, with the
-- options of the window and the viewport on the buffer. rsvim_core/src/ui/widget/cursor.rs: the drawing of
-- the cursor. The numbers that `next_node_id` hands out are arguments; the buffer is passed on.
pub mod Options
pub mod Made
use rsvim.Prelude.{ℕ, Bool, true, false, List, [], ◌∷◌, Outcome, ok, ◌>>=◌}
use rsvim.Canvas.Cell.{Crossterm}
use rsvim.Canvas.Cursor.{CursorStyle, default_user_shape}
use rsvim.Canvas.Cursor
use rsvim.Canvas.Frame
use rsvim.Canvas.Diff.{Canvas}
use rsvim.Tree.Geo.{Geo}
use rsvim.Tree.Itree
use rsvim.Tree.Itree.{Inode, Itree, new_inode, bounded_insert}
use rsvim.Tree.Iter.{iter}
use rsvim.Buf.Rope.{Texts}
use rsvim.Buf.Buffer.{FileTypes, Buffer}
use rsvim.Viewport.Rows.{ViewportOptions}
use rsvim.Viewport.View
use rsvim.Viewport.View.{Viewport}
use rsvim.Window.Content

pub record WindowLocalOptions : Type 0 where
  pub wrap : Bool
  pub line_break : Bool

-- `ViewportOptions::from`
unfoldable pub from : WindowLocalOptions → ViewportOptions
from value = record { wrap = value.wrap; line_break = value.line_break }

pub data WindowNode : Type 0 where
  window_root_container : WindowNode
  window_content : WindowNode

pub record Window (g : Geo) : Type 0 where
  pub base : Itree g WindowNode
  pub content_id : ℕ
  pub options : WindowLocalOptions
  pub viewport : Viewport g

module _ {g : Geo} where
  unfoldable pub new :
      {x : Texts} {f : FileTypes}
      → ℕ
      → ℕ
      → g.IRect
      → Buffer x f
      → WindowLocalOptions
      → Outcome (Window g)
  new window_root_id window_content_id shape buffer local_options = do
    let window_root_node : Inode g WindowNode = new_inode window_root_container window_root_id shape
    viewport ← View.new (from local_options) buffer window_root_node.actual_shape
    r ←
        bounded_insert (Itree.new window_root_node) window_root_id
          (new_inode window_content window_content_id shape)
    ok (record {
      base = r.0;
      content_id = window_content_id;
      options = local_options;
      viewport = viewport;
    })

  unfoldable pub set_options : WindowLocalOptions → Window g → Window g
  set_options options w = record w {
    options = options;
    viewport = View.set_options (from options) w.viewport;
  }

  unfoldable pub set_wrap : Bool → Window g → Window g
  set_wrap value w =
      let options = record w.options { wrap = value } in
      record w { options = options; viewport = View.set_options (from options) w.viewport }

  unfoldable pub set_line_break : Bool → Window g → Window g
  set_line_break value w =
      let options = record w.options { line_break = value } in
      record w { options = options; viewport = View.set_options (from options) w.viewport }

  -- The drawing of a node: a root container draws nothing.
  unfoldable pub draw_node :
      {s : Crossterm} {x : Texts} {f : FileTypes}
      → Buffer x f
      → Viewport g
      → Inode g WindowNode
      → Canvas s
      → Outcome (Canvas s)
  draw_node buffer viewport n canvas = elim n.value [
    | window_root_container ↦ ok canvas
    | window_content ↦ Content.draw g buffer viewport n.actual_shape canvas
  ]

  unfoldable pub draw_nodes :
      {s : Crossterm} {x : Texts} {f : FileTypes}
      → Buffer x f
      → Viewport g
      → List (Inode g WindowNode)
      → Canvas s
      → Outcome (Canvas s)
  draw_nodes buffer viewport [] canvas = ok canvas
  draw_nodes buffer viewport (n ∷ ns) canvas = do
    drawn ← draw_node buffer viewport n canvas
    draw_nodes buffer viewport ns drawn

  -- `Window::draw`
  unfoldable pub draw :
      {s : Crossterm} {x : Texts} {f : FileTypes}
      → Buffer x f
      → Window g
      → Canvas s
      → Outcome (Canvas s)
  draw buffer w canvas = do nodes ← iter w.base; draw_nodes buffer w.viewport nodes canvas

-- The data of the cursor widget.
pub record CursorData : Type 0 where
  pub blinking : Bool
  pub hidden : Bool
  pub style : CursorStyle

-- `Cursor::new`, beside the base of the node.
abbrev pub new_cursor : CursorData
new_cursor = record { blinking = true; hidden = false; style = default_user_shape }

-- `Cursor::draw`, of a node with this data.
unfoldable pub draw_cursor :
    {s : Crossterm} (g : Geo) → CursorData → g.U16Rect → Canvas s → Canvas s
draw_cursor g c actual_shape canvas = record canvas {
  frame =
      Frame.set_cursor canvas.frame (Cursor.new (g.umin actual_shape) c.blinking c.hidden c.style);
}
