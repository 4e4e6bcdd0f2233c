-- ===== src/Viewport/Sync.antt =====
-- rsvim_core/src/ui/widget/window/viewport/sync.rs: the loop over the lines of a buffer, and
-- `from_top_left`, which chooses how a line is laid out.
pub mod Lays
pub mod Tiled
pub mod Displays
use rsvim.Prelude.{
  ℕ, ◌+◌, ◌==◌, ◌||◌, Bool, true, false, leb, ltb, if◌then◌else◌, List, [], ◌∷◌, Option, some, none,
  Outcome, ok, ◌>>=◌, ◌>>◌, assert, Map, insert_ordered,
}
use rsvim.Cart.{add_u16}
use rsvim.Tree.Geo.{Geo}
use rsvim.Buf.Rope.{Texts}
use rsvim.Buf.Buffer.{FileTypes, Buffer, get_lines_at, char_width}
use rsvim.Viewport.Rows.{LineViewport, ViewportLineRange, no_lines, ViewportOptions}
use rsvim.Viewport.Scan.{Scan, nowrap_line, wrap_line}
use rsvim.Viewport.Words.{linebreak_line}

-- The loop over the lines from the row `wrow` and the line `current_line` on. The result is the line
-- after the last one that was laid out, and the lines.
unfoldable pub sync_lines :
    (List ℕ → ℕ → Outcome Scan)
    → ℕ
    → List (List ℕ)
    → ℕ
    → ℕ
    → Map LineViewport
    → Outcome (ℕ × Map LineViewport)
sync_lines line_scan height [] wrow current_line lines = ok (current_line, lines)
sync_lines line_scan height (line ∷ ls) wrow current_line lines =
    if leb height wrow then ok (current_line, lines) else (do
      s ← line_scan line wrow
      below ← add_u16 s.wrow 1
      sync_lines line_scan height ls below (current_line + 1) (
          insert_ordered current_line
            (record {
              rows = s.rows;
              start_filled_columns = s.start_fills;
              end_filled_columns = s.end_fills;
            })
            lines))

-- What the three functions share: the lines from `start_line` on, if the buffer has it.
unfoldable pub sync_buffer :
    (List ℕ → ℕ → Outcome Scan)
    → ℕ
    → Option (List (List ℕ))
    → ℕ
    → Outcome (ViewportLineRange × Map LineViewport)
sync_buffer line_scan height none start_line = ok (no_lines, [])
sync_buffer line_scan height (some buflines) start_line = do
  r ← sync_lines line_scan height buflines 0 start_line []
  ok (record { start_line_idx = start_line; end_line_idx = r.0 }, r.1)

module _ (g : Geo) {x : Texts} {f : FileTypes} where
  unfoldable pub _sync_from_top_left_nowrap :
      Buffer x f → g.U16Rect → ℕ → ℕ → Outcome (ViewportLineRange × Map LineViewport)
  _sync_from_top_left_nowrap buffer actual_shape start_line start_dcolumn = do
    let height = g.uheight actual_shape
    let width = g.uwidth actual_shape
    assert (ltb 0 height)
    assert (ltb 0 width)
    sync_buffer (nowrap_line (char_width buffer) width height start_dcolumn) height
        (get_lines_at buffer start_line) start_line

  unfoldable pub _sync_from_top_left_wrap_nolinebreak :
      Buffer x f → g.U16Rect → ℕ → ℕ → Outcome (ViewportLineRange × Map LineViewport)
  _sync_from_top_left_wrap_nolinebreak buffer actual_shape start_line start_dcolumn = do
    let height = g.uheight actual_shape
    let width = g.uwidth actual_shape
    assert (ltb 0 height)
    assert (ltb 0 width)
    sync_buffer (wrap_line (char_width buffer) width height start_dcolumn) height
        (get_lines_at buffer start_line) start_line

  unfoldable pub _sync_from_top_left_wrap_linebreak :
      Buffer x f → g.U16Rect → ℕ → ℕ → Outcome (ViewportLineRange × Map LineViewport)
  _sync_from_top_left_wrap_linebreak buffer actual_shape start_line start_dcolumn =
      let height = g.uheight actual_shape in
      let width = g.uwidth actual_shape in
      sync_buffer
        (linebreak_line (char_width buffer) width height x.split_word_bounds start_dcolumn) height
        (get_lines_at buffer start_line) start_line

  unfoldable pub from_top_left :
      ViewportOptions
      → Buffer x f
      → g.U16Rect
      → ℕ
      → ℕ
      → Outcome (ViewportLineRange × Map LineViewport)
  from_top_left options buffer actual_shape start_line start_dcolumn =
      if g.uheight actual_shape == 0 || g.uwidth actual_shape == 0
      then ok (no_lines, [])
      else if options.wrap
      then (if options.line_break
          then _sync_from_top_left_wrap_linebreak buffer actual_shape start_line start_dcolumn
          else _sync_from_top_left_wrap_nolinebreak buffer actual_shape start_line start_dcolumn)
      else _sync_from_top_left_nowrap buffer actual_shape start_line start_dcolumn
