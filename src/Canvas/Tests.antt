-- ===== src/Canvas/Tests.antt =====
-- Runs of the canvas of rsvim_core/src/ui/canvas.rs on a terminal of 6 columns and 4 rows.
pub mod Device
mod Runs
use rsvim.Prelude.{
  ℕ, ◌+◌, ◌*◌, ◌<◌, ◌≤◌, ◌≡◌, ◌↔◌, refl, sym, ◌∙◌, Bool, true, false, ◌==◌, ==_iff, List, [], ◌∷◌,
  some, none, ok, arith, if◌then◌else◌, get_elem?, Outcome,
}
use rsvim.Cart.{U16Pos, U16Size}
use rsvim.Canvas.Cell.{Crossterm, Cell}
use rsvim.Canvas.Cell
use rsvim.Canvas.Cursor
use rsvim.Canvas.Cursor.{Cursor, blinking_bar, pos_eq}
use rsvim.Canvas.Frame
use rsvim.Canvas.Iframe
use rsvim.Canvas.Iframe.{Iframe, pos2idx}
use rsvim.Canvas.Iframe.Valid.{IsValid, Inside, set_size-IsValid}
use rsvim.Canvas.Iframe.Index.{idx2pos-pos2idx, pos2idx-idx2pos}
use rsvim.Canvas.Iframe.Write.{Writes, set_cell-Writes}
use rsvim.Canvas.Iframe.Region.{Replaces, try_set_cells_at-Replaces}
use rsvim.Canvas.Shader.{cursor_move_to, style_print_string}
use rsvim.Canvas.Diff
use rsvim.Canvas.Diff.{Canvas, size, brute_force_diff, dirty_marks_diff}
use rsvim.Canvas.Diff.Ready.{IsReady, at}
use rsvim.Canvas.Shade.{shade}
use rsvim.Canvas.Shade.Refine.{Shades}
use Device.{colours}

abbrev pub area : U16Size
area = record { width = 4; height = 2 }

abbrev small : Iframe colours
small = record {
  size = area;
  cells =
      Cell.from_char b'a'
      ∷ Cell.from_char b'b'
      ∷ Cell.empty
      ∷ Cell.empty
      ∷ Cell.empty
      ∷ Cell.from_char b'c'
      ∷ Cell.from_char b'd'
      ∷ Cell.empty
      ∷ [];
  dirty_rows = false ∷ false ∷ [];
}

small-IsValid : IsValid small
small-IsValid = record { cells = refl; rows = refl }

set_cell-Writes_example :
    Writes small (at 1 2) Cell.space (Iframe.set_cell small (at 1 2) Cell.space)
set_cell-Writes_example = set_cell-Writes small (at 1 2) Cell.space small-IsValid (omega arith)

try_set_cells_at-Replaces_example :
    Replaces small
      (at 0 3)
      (Cell.space ∷ Cell.space ∷ [])
      (Iframe.try_set_cells_at small (at 0 3) (Cell.space ∷ Cell.space ∷ []))
unfolding pos2idx
try_set_cells_at-Replaces_example =
    try_set_cells_at-Replaces small (at 0 3) (Cell.space ∷ Cell.space ∷ []) small-IsValid
      (omega arith) (omega arith) (omega arith) (omega arith)
