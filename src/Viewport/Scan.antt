-- ===== src/Viewport/Scan.antt =====
-- rsvim_core/src/ui/widget/window/viewport/sync.rs: the loops over the characters of a line, without
-- wrapping and with it. The local variables of the loops are a record.
pub mod Tiles
pub mod Nowrap
pub mod Columns
pub mod Wrap
use package.rsvim.Prelude.{
  ℕ, ◌+◌, ◌-◌, ◌==◌, Bool, true, false, leb, ltb, if◌then◌else◌, List, [], ◌∷◌, length, Outcome, ok,
  panic, ◌>>=◌, ◌>>◌, assert, Map, insert_ordered,
}
use package.rsvim.Cart.{as_u16, add_u16}
use package.rsvim.Viewport.Rows.{RowViewport}

-- `a - b` on `usize` or `u16`, with the overflow check of a debug build.
unfoldable pub sub_usize : ℕ → ℕ → Outcome ℕ
sub_usize a b = if leb b a then ok (a - b) else panic

pub record Scan : Type 0 where
  pub wrow : ℕ
  pub wcol : ℕ
  pub dcol : ℕ
  pub start_dcol : ℕ
  pub end_dcol : ℕ
  pub start_c_idx : ℕ
  pub end_c_idx : ℕ
  pub start_c_idx_init : Bool
  pub ch2dcols : Map (ℕ × ℕ)
  pub rows : Map RowViewport
  pub start_fills : ℕ
  pub end_fills : ℕ

-- The variables before the first character of a line.
unfoldable pub start : ℕ → Scan
start wrow = record {
  wrow = wrow;
  wcol = 0;
  dcol = 0;
  start_dcol = 0;
  end_dcol = 0;
  start_c_idx = 0;
  end_c_idx = 0;
  start_c_idx_init = false;
  ch2dcols = [];
  rows = [];
  start_fills = 0;
  end_fills = 0;
}

-- How a round of a loop ends.
pub data Flow (S : Type 0) : Type 0 where
  next : S → Flow S
  stop : S → Flow S

-- `if !start_c_idx_init { ... }`, at the character `idx`.
unfoldable pub begin : ℕ → ℕ → Scan → Outcome Scan
begin start_dcolumn idx s = if s.start_c_idx_init then ok s else (do
  start_fills ← sub_usize s.dcol start_dcolumn
  ok (record s {
    start_c_idx_init = true;
    start_dcol = s.dcol;
    start_c_idx = idx;
    start_fills = start_fills;
  }))

-- `rows.insert(wrow, RowViewport::new(start_dcol..end_dcol, start_c_idx..end_c_idx, &ch2dcols))`
unfoldable pub put_row : Scan → Scan
put_row s = record s {
  rows =
      insert_ordered s.wrow
        (record {
          start_dcol_idx = s.start_dcol;
          end_dcol_idx = s.end_dcol;
          start_char_idx = s.start_c_idx;
          end_char_idx = s.end_c_idx;
          char2dcolumns = s.ch2dcols;
        })
        s.rows;
}

-- The character `idx` of width `c_width` goes to the row.
unfoldable pub advance : ℕ → ℕ → Scan → Outcome Scan
advance idx c_width s = do
  wcol ← add_u16 s.wcol (as_u16 c_width)
  let dcol = s.dcol + c_width
  ok (record s {
    dcol = dcol;
    end_dcol = dcol;
    end_c_idx = idx + 1;
    wcol = wcol;
    ch2dcols = insert_ordered idx (s.dcol, dcol) s.ch2dcols;
  })

-- The next row begins at the character `idx`.
unfoldable pub next_row : ℕ → Scan → Outcome Scan
next_row idx s = do
  wrow ← add_u16 s.wrow 1
  ok (record s { wrow = wrow; wcol = 0; start_dcol = s.end_dcol; start_c_idx = idx; ch2dcols = [] })

-- The loop over the characters from the index `i` on.
unfoldable pub scan_chars : (ℕ → ℕ → Scan → Outcome (Flow Scan)) → List ℕ → ℕ → Scan → Outcome Scan
scan_chars step [] i s = ok s
scan_chars step (c ∷ cs) i s = do
  r ← step i c s
  elim r [ next s' ↦ scan_chars step cs (i + 1) s' | stop s' ↦ ok s' ]

-- The widths of the characters, the width and height of the window, the first column to show, and the
-- number of characters of the line.
module _ (char_width : ℕ → Outcome ℕ) (width height start_dcolumn len : ℕ) where
  -- A character before the first column to show.
  unfoldable pub skip_char : ℕ → ℕ → Scan → Scan
  skip_char i c_width s =
      let dcol = s.dcol + c_width in record s { dcol = dcol; end_dcol = dcol; end_c_idx = i }

  -- A round of `_sync_from_top_left_nowrap`.
  unfoldable pub nowrap_char : ℕ → ℕ → Scan → Outcome (Flow Scan)
  nowrap_char i c s = do
    c_width ← char_width c
    if ltb (s.dcol + c_width) start_dcolumn then ok (next (skip_char i c_width s)) else (do
      s1 ← begin start_dcolumn i s
      if ltb width (s1.wcol + c_width)
          then ok (stop (put_row (record s1 { end_fills = width - s1.wcol })))
          else (do
            s2 ← advance i c_width s1
            if i + 1 == len
                then ok (stop (put_row s2))
                else if leb width s2.wcol
                then ok (stop (put_row s2))
                else ok (next s2)))

  -- The end of a round of `_sync_from_top_left_wrap_nolinebreak`: the character goes to the row, and
  -- the row is put away where it ends.
  unfoldable pub wrap_advance : ℕ → ℕ → Scan → Outcome (Flow Scan)
  wrap_advance i c_width s = do
    s1 ← advance i c_width s
    if i + 1 == len
        then ok (stop (put_row s1))
        else if leb width s1.wcol
        then (do
          assert (s1.wcol == width)
          s2 ← next_row s1.end_c_idx (put_row s1)
          if leb height s2.wrow then ok (stop s2) else ok (next s2))
        else ok (next s1)

  -- A round of `_sync_from_top_left_wrap_nolinebreak`.
  unfoldable pub wrap_char : ℕ → ℕ → Scan → Outcome (Flow Scan)
  wrap_char i c s = do
    c_width ← char_width c
    if ltb (s.dcol + c_width) start_dcolumn then ok (next (skip_char i c_width s)) else (do
      s1 ← begin start_dcolumn i s
      if ltb width (s1.wcol + c_width)
          then (do
            saved_end_fills ← sub_usize width s1.wcol
            s2 ← next_row s1.end_c_idx (put_row s1)
            if leb height s2.wrow
                then ok (stop (record s2 { end_fills = saved_end_fills }))
                else wrap_advance i c_width s2)
          else wrap_advance i c_width s1)

unfoldable pub nowrap_line : (ℕ → Outcome ℕ) → ℕ → ℕ → ℕ → List ℕ → ℕ → Outcome Scan
nowrap_line char_width width height start_dcolumn line wrow =
    scan_chars (nowrap_char char_width width height start_dcolumn (length line)) line 0 (start wrow)

unfoldable pub wrap_line : (ℕ → Outcome ℕ) → ℕ → ℕ → ℕ → List ℕ → ℕ → Outcome Scan
wrap_line char_width width height start_dcolumn line wrow =
    scan_chars (wrap_char char_width width height start_dcolumn (length line)) line 0 (start wrow)
