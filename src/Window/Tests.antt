-- ===== src/Window/Tests.antt =====
-- A window of two columns and three rows on a canvas of six columns and five rows, and the options of a
-- window without cells.
use rsvim.Prelude.{Outcome, panic, stuck, pos, true, false, ◌≡◌, refl, inr, ok, arith}
use rsvim.Cart.{U16Size}
use rsvim.Canvas.Cursor
use rsvim.Canvas.Iframe.Valid.{new-IsValid}
use rsvim.Canvas.Frame
use rsvim.Canvas.Frame.{Frame}
use rsvim.Canvas.Diff.{Canvas}
use rsvim.Canvas.Tests.Device.{colours}
use rsvim.Tree.Tests.{corners}
use rsvim.Buf.Sample.{two_lines, widths}
use rsvim.Viewport.View.{Viewport, sync_from_top_left}
use rsvim.Viewport.Tests.{shape, lines_wide, empty_view}
use rsvim.Tree.Itree
use rsvim.Tree.Itree.{new_inode, bounded_insert}
use rsvim.Viewport.Rows
use rsvim.Viewport.Sync.{from_top_left}
use rsvim.Viewport.View
use rsvim.Viewport.View.{new_cursor}
use rsvim.Window.Widget
use rsvim.Window.Widget.Options.{IsAligned, stay, change, by_wrap, by_line_break, Changes-IsAligned}
use rsvim.Window.Widget.{
  set_wrap, set_line_break, WindowLocalOptions, window_root_container, Window,
}
use rsvim.Window.Content.{draw}
use rsvim.Window.Content.Region.{InFrame, Keeps}
use rsvim.Window.Content.Whole.{draw-sync_from_top_left}

abbrev area : U16Size
area = record { width = 6; height = 5 }

abbrev blank : Canvas colours
blank = record { frame = Frame.new area Cursor.default; prev_frame = Frame.new area Cursor.default }

blank-InFrame : InFrame (corners.umin shape) 2 3 blank.frame
unfolding Frame.new
blank-InFrame = record {
  valid = new-IsValid area;
  right = omega arith;
  below = omega arith;
  small_width = omega arith;
  small_height = omega arith;
}

draw-sync_from_top_left_example :
    (v' : Viewport corners) × (sync_from_top_left two_lines 0 0 empty_view ≡ ok v')
    × (canvas' : Canvas colours) × (draw corners two_lines v' shape blank ≡ ok canvas')
    × Keeps (corners.umin shape) 2 3 blank.frame canvas'.frame
    × (canvas'.prev_frame ≡ blank.prev_frame)
draw-sync_from_top_left_example =
    draw-sync_from_top_left corners widths two_lines empty_view 0 blank (omega arith) (omega arith)
      (omega arith) lines_wide (inr refl) blank-InFrame

abbrev point : corners.IRect
point = record { a = record { x = pos 0; y = pos 0 }; b = record { x = pos 0; y = pos 0 } }

abbrev window_options : WindowLocalOptions
window_options = record { wrap = true; line_break = false }

abbrev made_or : {A : Type 0} → Outcome A → A → A
made_or (ok a) d = a
made_or panic d = d
made_or stuck d = d

abbrev window : Window corners
window = made_or (Widget.new 1 2 point two_lines window_options) (record {
  base = Itree.new (new_inode window_root_container 1 point);
  content_id = 2;
  options = window_options;
  viewport = empty_view;
})

window-made : Widget.new 1 2 point two_lines window_options ≡ ok window
unfolding Widget.new View.new from_top_left new_cursor Rows.is_empty bounded_insert new_inode
    Itree.new Itree.insert rsvim.Tree.Shapes.make_actual_shape rsvim.Cart.add_u16 rsvim.Prelude.◌+ℤ◌
    rsvim.Tree.Shapes.bound_shape rsvim.Tree.Shapes.bound_position rsvim.Tree.Shapes.bound_axis
    rsvim.Tree.Shapes.bound_size rsvim.Prelude.◌-ℤ◌ Itree.update_each
window-made = refl

Changes-IsAligned_example : IsAligned (set_wrap false (set_line_break true window))
Changes-IsAligned_example =
    Changes-IsAligned 1 2 point two_lines window_options window
      (set_wrap false (set_line_break true window)) window-made
      (change (change stay (by_line_break true)) (by_wrap false))
