-- ===== src/Viewport/Rows.antt =====
-- The rows and lines of a viewport.
use rsvim.Prelude.{ℕ, ◌-◌, Bool, leb, Map}

pub record RowViewport : Type 0 where
  pub start_dcol_idx : ℕ
  pub end_dcol_idx : ℕ
  pub start_char_idx : ℕ
  pub end_char_idx : ℕ
  pub char2dcolumns : Map (ℕ × ℕ)

pub record LineViewport : Type 0 where
  pub rows : Map RowViewport
  pub start_filled_columns : ℕ
  pub end_filled_columns : ℕ

pub record CursorViewport : Type 0 where
  pub start_dcol_idx : ℕ
  pub end_dcol_idx : ℕ
  pub char_idx : ℕ
  pub row_idx : ℕ
  pub line_idx : ℕ

pub record ViewportLineRange : Type 0 where
  pub start_line_idx : ℕ
  pub end_line_idx : ℕ

-- `ViewportLineRange::default`
abbrev pub no_lines : ViewportLineRange
no_lines = record { start_line_idx = 0; end_line_idx = 0 }

unfoldable pub is_empty : ViewportLineRange → Bool
is_empty r = leb r.end_line_idx r.start_line_idx

unfoldable pub len : ViewportLineRange → ℕ
len r = r.end_line_idx - r.start_line_idx

pub record ViewportOptions : Type 0 where
  pub wrap : Bool
  pub line_break : Bool

unfoldable pub chars_length : RowViewport → ℕ
chars_length r = r.end_char_idx - r.start_char_idx

unfoldable pub chars_width : RowViewport → ℕ
chars_width r = r.end_dcol_idx - r.start_dcol_idx
