-- ===== src/Canvas/Tests/Runs.antt =====
-- A letter drawn on a new canvas, and the shades that follow.
use rsvim.Prelude.{ℕ, ◌≡◌, refl, true, false, List, [], ◌∷◌, ok, arith}
use rsvim.Canvas.Cell.{Crossterm, Cell}
use rsvim.Canvas.Cell
use rsvim.Canvas.Frame
use rsvim.Canvas.Iframe
use rsvim.Canvas.Iframe.{Iframe, set_cell, try_set_cells_at, zero_sized}
use rsvim.Canvas.Iframe.Region.{Replaces, try_set_cells_at-Replaces}
use rsvim.Canvas.Shader.{ShaderCommand, cursor_move_to, style_print_string}
use rsvim.Canvas.Diff
use rsvim.Canvas.Diff.{Canvas, size, brute_force_diff, dirty_marks_diff}
use rsvim.Canvas.Diff.Ready.{at}
use rsvim.Canvas.Diff.Rows.{
  AreRowRuns, row_commands, brute_force_diff-runs, dirty_marks_diff-eq-brute_force_diff,
}
use rsvim.Canvas.Shade.{shade}
use rsvim.Canvas.Shade.Refine.{Shades, shade-Shades}
use rsvim.Canvas.Session.{World, draw_cell, Reach, here, next, Inv, Reach-Inv}
use rsvim.Canvas.Session.Start.{started, started-Inv, session-Shades}
use rsvim.Canvas.Tests.{area}
use rsvim.Canvas.Tests.Device.{colours, device, blank}

abbrev start : World colours device
start = started colours device area blank

start-Inv : Inv colours device start
start-Inv =
    started-Inv colours device area blank (omega arith, omega arith) (omega arith, omega arith)
      (omega arith, omega arith) (omega arith) (λ q. refl)

abbrev letter : Cell colours
letter = Cell.from_char b'x'

abbrev start_frame : Iframe colours
start_frame = start.can.frame.iframe

abbrev lettered : Iframe colours
lettered = record {
  size = area;
  cells =
      Cell.empty ∷ Cell.empty ∷ Cell.empty ∷ Cell.empty ∷ Cell.empty ∷ Cell.empty ∷ letter
      ∷ Cell.empty ∷ [];
  dirty_rows = false ∷ true ∷ [];
}

set_cell_test : set_cell start_frame (at 1 2) letter ≡ ok (lettered, Cell.empty)
unfolding set_cell Iframe.try_set_cell Iframe.pos2idx Iframe.xy2idx Iframe.contains_index
    Iframe.store Diff.new Frame.new Iframe.new Cell.default
set_cell_test = refl

abbrev drawn : World colours device
drawn = record {
  can = record {
    frame = record { iframe = lettered; cursor = start.can.frame.cursor };
    prev_frame = start.can.prev_frame;
  };
  sc = blank;
}

drawn-Reach : Reach colours device start drawn
unfolding Cell.from_char Cell.new Diff.new Frame.new Iframe.new
drawn-Reach = next here (
    draw_cell (at 1 2) letter Cell.empty lettered (omega arith, omega arith)
      (omega arith, omega arith) set_cell_test refl)

Reach-Inv_example : Inv colours device drawn
Reach-Inv_example = Reach-Inv colours device start-Inv drawn-Reach

session-Shades_example : Shades device drawn.can drawn.sc (shade drawn.can)
session-Shades_example =
    session-Shades colours device area blank drawn (omega arith, omega arith)
      (omega arith, omega arith) (omega arith, omega arith) (omega arith) (λ q. refl) drawn-Reach

drawn-Inv : Inv colours device drawn
drawn-Inv = Reach-Inv colours device start-Inv drawn-Reach

shade-Shades_example : Shades device drawn.can blank (shade drawn.can)
shade-Shades_example =
    shade-Shades device drawn.can blank drawn-Inv.ready drawn-Inv.tracked drawn-Inv.fits
      drawn-Inv.single drawn-Inv.shown

dirty_marks_diff-eq-brute_force_diff_example :
    dirty_marks_diff drawn.can ≡ brute_force_diff drawn.can
dirty_marks_diff-eq-brute_force_diff_example =
    dirty_marks_diff-eq-brute_force_diff drawn.can drawn-Inv.ready (omega arith) drawn-Inv.tracked

brute_force_diff-runs_example :
    (rows : List (List (ℕ × ℕ))) × (brute_force_diff drawn.can ≡ ok (row_commands drawn.can 0 rows))
    × ((zero_sized drawn.can.frame.iframe ≡ false → AreRowRuns drawn.can 0 rows)
        × (zero_sized drawn.can.frame.iframe ≡ true → rows ≡ []))
brute_force_diff-runs_example = brute_force_diff-runs drawn.can drawn-Inv.ready

two_letters :
    Replaces lettered
      (at 0 3)
      (letter ∷ letter ∷ [])
      (try_set_cells_at lettered (at 0 3) (letter ∷ letter ∷ []))
unfolding Iframe.pos2idx Iframe.xy2idx
two_letters =
    try_set_cells_at-Replaces lettered (at 0 3) (letter ∷ letter ∷ []) drawn-Inv.ready.frame
      (omega arith) (omega arith) (omega arith) (omega arith)

-- The letter is printed, and then the cursor is moved back to its place.
abbrev shown_commands : List ShaderCommand
shown_commands = cursor_move_to (at 1 2) ∷ style_print_string (b'x' ∷ []) ∷ []

dirty_marks_diff_test : dirty_marks_diff drawn.can ≡ ok shown_commands
unfolding dirty_marks_diff Diff.dirty_marks_rows Diff.diff_row Diff.next_same_cell_in_row
    Diff.next_same_loop Diff.make_print_shaders Diff.join Frame.get_cell Frame.get_cells_at
    Frame.zero_sized Iframe.zero_sized Iframe.get_cell Iframe.try_get_cell Iframe.get_cells_at
    Iframe.try_get_cells_at Iframe.slice Iframe.pos2range Iframe.contains_range Iframe.pos2idx
    Iframe.xy2idx Iframe.contains_index Cell.cell_eq Cell.symbol_eq Cell.from_char Cell.new
    Cell.empty Cell.default Diff.new Frame.new Iframe.new
dirty_marks_diff_test = refl
