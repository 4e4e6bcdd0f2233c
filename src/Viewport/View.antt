-- ===== src/Viewport/View.antt =====
-- rsvim_core/src/ui/widget/window/viewport.rs: the viewport, made and synchronized, and the check of its
-- invariants that a debug build runs in each getter. The buffer is passed to the operations that read
-- it.
pub mod Check
pub mod Made
use rsvim.Prelude.{
  ℕ, ◌+◌, ◌==◌, Bool, true, false, not, leb, ltb, if◌then◌else◌, List, [], ◌∷◌, length, Option,
  some, none, Outcome, ok, ◌>>=◌, ◌>>◌, assert, unwrap, Map, lookup, first_key_value,
  last_key_value,
}
use rsvim.Cart.{add_u16}
use rsvim.Tree.Geo.{Geo}
use rsvim.Buf.Rope.{Texts}
use rsvim.Buf.Buffer.{FileTypes, Buffer}
use rsvim.Viewport.Rows
use rsvim.Viewport.Rows.{
  RowViewport, LineViewport, CursorViewport, ViewportLineRange, ViewportOptions, len,
}
use rsvim.Viewport.Scan.{sub_usize}
use rsvim.Viewport.Sync.{from_top_left}

abbrev same : Bool → Bool → Bool
same true b = b
same false b = not b

abbrev is_some : {A : Type 0} → Option A → Bool
is_some none = false
is_some (some a) = true

abbrev no_entries : {V : Type 0} → Map V → Bool
no_entries [] = true
no_entries (e ∷ m) = false

pub record Viewport (g : Geo) : Type 0 where
  pub options : ViewportOptions
  pub actual_shape : g.U16Rect
  pub start_line_idx : ℕ
  pub end_line_idx : ℕ
  pub lines : Map LineViewport
  pub cursor : CursorViewport

-- `CursorViewport::new(0..1, 0, 0, 0)`
abbrev pub top_left : CursorViewport
top_left = record { start_dcol_idx = 0; end_dcol_idx = 1; char_idx = 0; row_idx = 0; line_idx = 0 }

-- The cursor at the first character of the first row of the first line.
unfoldable pub first_cursor : ℕ × LineViewport → Outcome CursorViewport
first_cursor first_line = if no_entries first_line.1.rows then ok top_left else (do
  first_row ← unwrap (first_key_value first_line.1.rows)
  let char_idx = first_row.1.start_char_idx
  dcols ← unwrap (lookup char_idx first_row.1.char2dcolumns)
  ok (record {
    start_dcol_idx = dcols.0;
    end_dcol_idx = dcols.1;
    char_idx = char_idx;
    row_idx = first_row.0;
    line_idx = first_line.0;
  }))

unfoldable pub new_cursor : ViewportLineRange → Map LineViewport → Outcome CursorViewport
new_cursor line_idx_range lines =
    if Rows.is_empty line_idx_range then (do assert (no_entries lines); ok top_left) else (do
      assert (not (no_entries lines))
      assert (length lines == len line_idx_range)
      first_line ← unwrap (first_key_value lines)
      last_line ← unwrap (last_key_value lines)
      assert (first_line.0 == line_idx_range.start_line_idx)
      assert (ltb 0 line_idx_range.end_line_idx)
      last_idx ← sub_usize line_idx_range.end_line_idx 1
      assert (last_line.0 == last_idx)
      first_cursor first_line)

-- `last + 1 == idx`, if there is a last one.
unfoldable pub check_next : Option ℕ → ℕ → Outcome (Unit {0})
check_next none idx = ok tt
check_next (some last) idx = assert (last + 1 == idx)

-- The same on `u16`.
unfoldable pub check_next_row : Option ℕ → ℕ → Outcome (Unit {0})
check_next_row none idx = ok tt
check_next_row (some last) idx = do n ← add_u16 last 1; assert (n == idx)

unfoldable pub check_same : Option ℕ → ℕ → Outcome (Unit {0})
check_same none idx = ok tt
check_same (some last) idx = assert (idx == last)

-- The loop over the characters of a row, with the last index and the last column of the line so far.
unfoldable pub check_chars : Map (ℕ × ℕ) → Option ℕ → Option ℕ → Outcome (Option ℕ × Option ℕ)
check_chars [] last_char_idx last_dcolumn_idx = ok (last_char_idx, last_dcolumn_idx)
check_chars ((char_idx, dcolumn_idx) ∷ m) last_char_idx last_dcolumn_idx = do
  check_next last_char_idx char_idx
  check_same last_dcolumn_idx dcolumn_idx.0
  check_chars m (some char_idx) (some dcolumn_idx.1)

-- The ends of a row are those of its characters.
unfoldable pub check_row : RowViewport → Outcome (Unit {0})
check_row r = do
  first ← unwrap (first_key_value r.char2dcolumns)
  assert (first.0 == r.start_char_idx)
  assert (first.1.0 == r.start_dcol_idx)
  last ← unwrap (last_key_value r.char2dcolumns)
  last_idx ← sub_usize r.end_char_idx 1
  assert (last.0 == last_idx)
  assert (last.1.1 == r.end_dcol_idx)

-- The loop over the rows of a line; the last row goes on to the next line.
unfoldable pub check_rows : Map RowViewport → Option ℕ → Option ℕ → Option ℕ → Outcome (Option ℕ)
check_rows [] last_row_idx last_char_idx last_dcolumn_idx = ok last_row_idx
check_rows ((row_idx, r) ∷ m) last_row_idx last_char_idx last_dcolumn_idx = do
  check_next_row last_row_idx row_idx
  check_row r
  last ← check_chars r.char2dcolumns last_char_idx last_dcolumn_idx
  check_rows m (some row_idx) last.0 last.1

unfoldable pub check_lines : Map LineViewport → Option ℕ → Option ℕ → Outcome (Unit {0})
check_lines [] last_line_idx last_row_idx = ok tt
check_lines ((line_idx, v) ∷ m) last_line_idx last_row_idx = do
  check_next last_line_idx line_idx
  last_row ← check_rows v.rows last_row_idx none none
  check_lines m (some line_idx) last_row

module _ {g : Geo} where
  unfoldable pub _internal_check : Viewport g → Outcome (Unit {0})
  _internal_check v = do
    assert (same (leb v.end_line_idx v.start_line_idx) (no_entries v.lines))
    first ← unwrap (first_key_value v.lines)
    assert (first.0 == v.start_line_idx)
    last ← unwrap (last_key_value v.lines)
    last_idx ← sub_usize v.end_line_idx 1
    assert (last.0 == last_idx)
    check_lines v.lines none none

  unfoldable pub start_line_idx : Viewport g → Outcome ℕ
  start_line_idx v = do _internal_check v; ok v.start_line_idx

  unfoldable pub end_line_idx : Viewport g → Outcome ℕ
  end_line_idx v = do _internal_check v; ok v.end_line_idx

  unfoldable pub lines : Viewport g → Outcome (Map LineViewport)
  lines v = do _internal_check v; ok v.lines

  unfoldable pub is_empty : Viewport g → Outcome Bool
  is_empty v = do _internal_check v; ok (no_entries v.lines)

  unfoldable pub cursor : Viewport g → Outcome CursorViewport
  cursor v = do _internal_check v; ok v.cursor

  unfoldable pub set_cursor : CursorViewport → Viewport g → Viewport g
  set_cursor c v = record v { cursor = c }

module _ {g : Geo} {x : Texts} {f : FileTypes} where
  unfoldable pub new : ViewportOptions → Buffer x f → g.U16Rect → Outcome (Viewport g)
  new options buffer actual_shape = do
    r ← from_top_left g options buffer actual_shape 0 0
    cursor ← new_cursor r.0 r.1
    ok (record {
      options = options;
      actual_shape = actual_shape;
      start_line_idx = r.0.start_line_idx;
      end_line_idx = r.0.end_line_idx;
      lines = r.1;
      cursor = cursor;
    })

  unfoldable pub sync_from_top_left : Buffer x f → ℕ → ℕ → Viewport g → Outcome (Viewport g)
  sync_from_top_left buffer start_line start_dcolumn v = do
    r ← from_top_left g v.options buffer v.actual_shape start_line start_dcolumn
    ok (record v {
      start_line_idx = r.0.start_line_idx;
      end_line_idx = r.0.end_line_idx;
      lines = r.1;
    })

module _ {g : Geo} where
  unfoldable pub set_options : ViewportOptions → Viewport g → Viewport g
  set_options options v = record v { options = options }

  unfoldable pub set_actual_shape : g.U16Rect → Viewport g → Viewport g
  set_actual_shape actual_shape v = record v { actual_shape = actual_shape }
