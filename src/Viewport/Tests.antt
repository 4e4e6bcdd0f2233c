-- ===== src/Viewport/Tests.antt =====
-- A buffer of two lines in a window of two columns and three rows.
use rsvim.Prelude.{◌≡◌, refl, inl, inr, true, false, [], ◌∷◌, arith, ok, panic}
use rsvim.Tree.Tests.{corners}
use rsvim.Buf.Buffer.{char_width}
use rsvim.Buf.Sample.{two_lines, widths}
use rsvim.Viewport.Rows.{ViewportOptions}
use rsvim.Viewport.Scan.{wrap_line, nowrap_line}
use rsvim.Viewport.Scan.Tiles.{sum}
use rsvim.Viewport.Scan.Wrap.{Wraps}
use rsvim.Viewport.Scan.Wrap.Lines.{wrap_line_lem}
use rsvim.Viewport.Scan.Nowrap.{Cuts, nowrap_line_lem}
use rsvim.Viewport.Scan.Columns.{start_dcolumn_panics}
use rsvim.Viewport.Sync.{from_top_left}
use rsvim.Viewport.Sync.Tiled.{AllLinesWide}
use rsvim.Viewport.Sync.Displays.{lines_from, Displays, from_top_left-Displays}
use rsvim.Viewport.View.{Viewport, top_left, new, sync_from_top_left, is_empty}
use rsvim.Viewport.View.Made.{
  ShowsBuffer, sync_from_top_left-ShowsBuffer, new-ShowsBuffer, new_zero_sized,
}

abbrev pub shape : corners.U16Rect
shape = record { a = record { x = 1; y = 1 }; b = record { x = 3; y = 4 } }

abbrev wrapping : ViewportOptions
wrapping = record { wrap = true; line_break = false }

pub lines_wide :
    AllLinesWide (char_width two_lines) widths 2 (lines_from corners widths two_lines shape 0)
unfolding char_width
lines_wide = (
  ((refl, omega arith), ((refl, omega arith), ((refl, omega arith), ((refl, omega arith), tt)))),
  (((refl, omega arith), tt), tt),
)

wrap_line_lem_example :
    Wraps
      (char_width two_lines)
      widths
      2
      3
      (97 ∷ 98 ∷ 99 ∷ 10 ∷ [])
      0
      0
      0
      []
      (wrap_line (char_width two_lines) 2 3 0 (97 ∷ 98 ∷ 99 ∷ 10 ∷ []) 0)
wrap_line_lem_example =
    wrap_line_lem (char_width two_lines) widths 2 3 (97 ∷ 98 ∷ 99 ∷ 10 ∷ []) 0 (omega arith)
      (omega arith) (omega arith) (omega arith) (omega arith) lines_wide.0

nowrap_line_lem_example :
    Cuts
      (char_width two_lines)
      widths
      2
      3
      (97 ∷ 98 ∷ 99 ∷ 10 ∷ [])
      0
      0
      0
      (nowrap_line (char_width two_lines) 2 3 0 (97 ∷ 98 ∷ 99 ∷ 10 ∷ []) 0)
nowrap_line_lem_example =
    nowrap_line_lem (char_width two_lines) widths 2 3 (97 ∷ 98 ∷ 99 ∷ 10 ∷ []) 0 (omega arith)
      (omega arith) (omega arith) lines_wide.0

from_top_left-Displays_example :
    Displays corners widths two_lines shape 0 (from_top_left corners wrapping two_lines shape 0 0)
from_top_left-Displays_example =
    from_top_left-Displays corners widths two_lines shape 0 wrapping (omega arith) (omega arith)
      (omega arith) (omega arith) (omega arith) lines_wide (inr refl)

new-ShowsBuffer_example :
    (v : Viewport corners) × (new wrapping two_lines shape ≡ ok v)
    × ShowsBuffer widths two_lines shape 0 v
new-ShowsBuffer_example =
    new-ShowsBuffer corners widths two_lines shape wrapping (omega arith) (omega arith)
      (omega arith) (omega arith) lines_wide (inr refl)

abbrev pub empty_view : Viewport corners
empty_view = record {
  options = wrapping;
  actual_shape = shape;
  start_line_idx = 0;
  end_line_idx = 0;
  lines = [];
  cursor = top_left;
}

sync_from_top_left-ShowsBuffer_example :
    (v' : Viewport corners) × (sync_from_top_left two_lines 1 0 empty_view ≡ ok v')
    × ShowsBuffer widths two_lines shape 1 v'
sync_from_top_left-ShowsBuffer_example =
    sync_from_top_left-ShowsBuffer widths two_lines empty_view 1 (omega arith) (omega arith)
      (omega arith) (omega arith) (omega arith) lines_wide.1 (inr refl)

abbrev flat : corners.U16Rect
flat = record { a = record { x = 1; y = 1 }; b = record { x = 3; y = 1 } }

new_zero_sized_example :
    (v : Viewport corners) × (new wrapping two_lines flat ≡ ok v) × (is_empty v ≡ panic)
new_zero_sized_example = new_zero_sized corners two_lines flat wrapping (inl (omega arith))

start_dcolumn_panics_example :
    (nowrap_line (char_width two_lines) 2 3 1 (97 ∷ 98 ∷ 99 ∷ 10 ∷ []) 0 ≡ panic)
    × (wrap_line (char_width two_lines) 2 3 1 (97 ∷ 98 ∷ 99 ∷ 10 ∷ []) 0 ≡ panic)
unfolding sum
start_dcolumn_panics_example =
    start_dcolumn_panics (char_width two_lines) widths 2 3 1 2 (97 ∷ 98 ∷ 99 ∷ 10 ∷ []) 0
      (omega arith) lines_wide.0 (omega arith)
