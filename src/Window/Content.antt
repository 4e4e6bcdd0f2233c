-- ===== src/Window/Content.antt =====
-- rsvim_core/src/ui/widget/window/content.rs: the drawing of the text of a window. The buffer, the
-- viewport and the actual shape of the widget are passed to it, and the frame of the canvas.
pub mod Region
pub mod Rows
pub mod Line
pub mod Whole
use rsvim.Prelude.{
  ℕ, zero, suc, ◌+◌, ◌-◌, ◌==◌, ◌&&◌, ◌||◌, Bool, true, false, leb, ltb, if◌then◌else◌, List, [],
  ◌∷◌, replicate, Option, some, none, Outcome, ok, panic, ◌>>=◌, ◌>>◌, assert, unwrap, Map, lookup,
  first_key_value, last_key_value,
}
use rsvim.Cart.{U16Pos, as_u16, add_u16}
use rsvim.Canvas.Cell.{Crossterm, Cell}
use rsvim.Canvas.Cell
use rsvim.Canvas.Frame
use rsvim.Canvas.Frame.{Frame}
use rsvim.Canvas.Diff.{Canvas}
use rsvim.Tree.Geo.{Geo}
use rsvim.Buf.Rope.{Texts}
use rsvim.Buf.Buffer.{FileTypes, Buffer, get_lines_at, char_symbol}
use rsvim.Viewport.Rows.{RowViewport, LineViewport}
use rsvim.Viewport.Scan.{sub_usize}
use rsvim.Viewport.View
use rsvim.Viewport.View.{Viewport}

-- The local variables of the loop over the rows of a line.
pub record Draw (s : Crossterm) : Type 0 where
  pub frame : Frame s
  pub row_idx : ℕ
  pub start_fills_count : ℕ
  pub end_fills_count : ℕ

-- `point!(x: col_idx + upos.x(), y: row_idx + upos.y())`
unfoldable pub point_at : U16Pos → ℕ → ℕ → Outcome U16Pos
point_at upos col_idx row_idx = do
  x ← add_u16 col_idx upos.x
  y ← add_u16 row_idx upos.y
  ok (record { x = x; y = y })

-- How many columns to fill at an end of the line, and how often that was so; it is asserted to be so
-- once.
unfoldable pub fills_of : Bool → ℕ → ℕ → Outcome (ℕ × ℕ)
fills_of here filled count =
    if here && ltb 0 filled
    then (do assert (count + 1 == 1); ok (as_u16 filled, count + 1))
    else ok (0, count)

module _ {s : Crossterm} (upos : U16Pos) where
  -- `n` cells of the character `c`.
  unfoldable pub put_fills : ℕ → ℕ → ℕ → ℕ → Frame s → Outcome (Frame s)
  put_fills c n col_idx row_idx frame = do
    cells_upos ← point_at upos col_idx row_idx
    r ← Frame.set_cells_at frame cells_upos (replicate n (Cell.with_char c))
    ok r.0

  -- The same where there is something to fill; the result has the next column.
  unfoldable pub put_some_fills : ℕ → ℕ → ℕ → ℕ → Frame s → Outcome (Frame s × ℕ)
  put_some_fills c n col_idx row_idx frame =
      if ltb 0 n
      then (do
        f ← put_fills c n col_idx row_idx frame
        next_col ← add_u16 col_idx n
        ok (f, next_col))
      else ok (frame, col_idx)

  -- The loop over `n` characters of a row.
  unfoldable pub draw_chars :
      (ℕ → Outcome (List ℕ × ℕ)) → ℕ → List ℕ → ℕ → ℕ → ℕ → Frame s → Outcome (Frame s × (ℕ × ℕ))
  draw_chars char_symbol zero cs row_idx col_idx total_width frame =
      ok (frame, (col_idx, total_width))
  draw_chars char_symbol (suc n) [] row_idx col_idx total_width frame = panic
  draw_chars char_symbol (suc n) (c ∷ cs) row_idx col_idx total_width frame = do
    symbol ← char_symbol c
    cell_upos ← point_at upos col_idx row_idx
    r ← Frame.set_cell frame cell_upos (Cell.with_symbol symbol.0)
    next_col ← add_u16 col_idx (as_u16 symbol.1)
    draw_chars char_symbol n cs row_idx next_col (total_width + symbol.1) r.0

  module _ {x : Texts} {f : FileTypes} (b : Buffer x f) (width height : ℕ) where
    -- The content of a row, if it has characters.
    unfoldable pub draw_content : List ℕ → RowViewport → ℕ → ℕ → Frame s → Outcome (Frame s × ℕ)
    draw_content line r row_idx col_idx frame =
        if ltb r.start_char_idx r.end_char_idx
        then (do
          chars ← unwrap (x.get_chars_at line r.start_char_idx)
          d ←
              draw_chars (char_symbol b) (r.end_char_idx - r.start_char_idx) chars row_idx col_idx 0
                frame
          dcols ← sub_usize r.end_dcol_idx r.start_dcol_idx
          assert (d.1.1 == dcols)
          ok (d.0, d.1.0))
        else ok (frame, col_idx)

    -- A round of the loop over the rows of a line.
    unfoldable pub draw_row :
        List ℕ → LineViewport → ℕ → ℕ → ℕ → RowViewport → Draw s → Outcome (Draw s)
    draw_row line v first_row_idx last_row_idx r_idx r st = do
      let row_idx = st.row_idx
      assert (r_idx == row_idx)
      assert (ltb row_idx height)
      start_fills ← fills_of (row_idx == first_row_idx) v.start_filled_columns st.start_fills_count
      end_fills ← fills_of (row_idx == last_row_idx) v.end_filled_columns st.end_fills_count
      d1 ← put_some_fills b'>' start_fills.0 0 row_idx st.frame
      d2 ← draw_content line r row_idx d1.1 d1.0
      dcols ← sub_usize r.end_dcol_idx r.start_dcol_idx
      with_start ← add_u16 (as_u16 dcols) start_fills.0
      occupied_length ← add_u16 with_start end_fills.0
      d3 ← put_some_fills b' ' (width - occupied_length) d2.1 row_idx d2.0
      d4 ← put_some_fills b'<' end_fills.0 d3.1 row_idx d3.0
      assert (width == d4.1)
      next_row ← add_u16 row_idx 1
      ok (record {
        frame = d4.0;
        row_idx = next_row;
        start_fills_count = start_fills.1;
        end_fills_count = end_fills.1;
      })

    unfoldable pub draw_rows :
        List ℕ → LineViewport → ℕ → ℕ → Map RowViewport → Draw s → Outcome (Draw s)
    draw_rows line v first_row_idx last_row_idx [] st = ok st
    draw_rows line v first_row_idx last_row_idx ((r_idx, r) ∷ rows) st = do
      st' ← draw_row line v first_row_idx last_row_idx r_idx r st
      draw_rows line v first_row_idx last_row_idx rows st'

    -- The rows of a line, if it has any.
    unfoldable pub draw_line : List ℕ → LineViewport → ℕ × Frame s → Outcome (ℕ × Frame s)
    draw_line line v (row_idx, frame) = elim (first_key_value v.rows) [
      | none ↦ ok (row_idx, frame)
      | some first_row ↦ (do
        last_row ← unwrap (last_key_value v.rows)
        st ← draw_rows line v first_row.0 last_row.0 v.rows (record {
          frame = frame;
          row_idx = row_idx;
          start_fills_count = 0;
          end_fills_count = 0;
        })
        ok (st.row_idx, st.frame))
    ]

    -- The loop over `n` lines from the line `line_idx` on; `lines_slice` is the lines of the buffer left.
    unfoldable pub draw_lines :
        Map LineViewport → ℕ → ℕ → List (List ℕ) → ℕ × Frame s → Outcome (ℕ × Frame s)
    draw_lines lines zero line_idx lines_slice st = ok st
    draw_lines lines (suc n) line_idx [] st = panic
    draw_lines lines (suc n) line_idx (line ∷ lines_slice) st = do
      assert (ltb st.0 height)
      v ← unwrap (lookup line_idx lines)
      st' ← draw_line line v st
      draw_lines lines n (line_idx + 1) lines_slice st'

    -- The loop over the `n` rows left below the lines.
    unfoldable pub draw_blank : ℕ → ℕ → Frame s → Outcome (Frame s)
    draw_blank zero row_idx frame = ok frame
    draw_blank (suc n) row_idx frame = do
      f ← put_fills b' ' width 0 row_idx frame
      next_row ← add_u16 row_idx 1
      draw_blank n next_row f

-- `WindowContent::draw`, on the frame. The viewport does not change meanwhile, so that each of its
-- getters is called once here.
unfoldable pub draw_frame :
    {s : Crossterm} (g : Geo) {x : Texts} {f : FileTypes}
    → Buffer x f
    → Viewport g
    → g.U16Rect
    → Frame s
    → Outcome (Frame s)
draw_frame g b v actual_shape frame = do
  let upos = g.umin actual_shape
  let height = g.uheight actual_shape
  let width = g.uwidth actual_shape
  if height == 0 || width == 0 then ok frame else (do
    end_line_idx ← View.end_line_idx v
    start_line_idx ← View.start_line_idx v
    if leb end_line_idx start_line_idx then ok frame else (do
      lines ← View.lines v
      lines_slice ← unwrap (get_lines_at b start_line_idx)
      st ←
          draw_lines upos b width height lines (end_line_idx - start_line_idx) start_line_idx
            lines_slice (0, frame)
      draw_blank upos b width height (height - st.0) st.0 st.1))

-- `WindowContent::draw`
unfoldable pub draw :
    {s : Crossterm} (g : Geo) {x : Texts} {f : FileTypes}
    → Buffer x f
    → Viewport g
    → g.U16Rect
    → Canvas s
    → Outcome (Canvas s)
draw g b v actual_shape canvas = do
  frame ← draw_frame g b v actual_shape canvas.frame
  ok (record canvas { frame = frame })
