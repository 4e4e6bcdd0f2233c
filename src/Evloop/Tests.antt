-- ===== src/Evloop/Tests.antt =====
-- The start of the event loop on a terminal of two columns and three rows, and where the only input file
-- cannot be opened.
use rsvim.Prelude.{◌≡◌, refl, inr, true, false, none, some, [], ◌∷◌, ok, panic, arith}
use rsvim.Cart.{U16Size}
use rsvim.Tree.Tests.{corners}
use rsvim.Tree.Widgets.{Tree, new, current_window_id}
use rsvim.Tree.Widgets.Guards.{Guarded}
use rsvim.Buf.Buffer.{default_options}
use rsvim.Buf.Sample.{texts, files, two_lines, widths, disk}
use rsvim.Buf.Manager
use rsvim.Buf.Manager.{FileSystem, BuffersManager, failed}
use rsvim.Viewport.Tests.{lines_wide}
use rsvim.Window.Widget.{WindowLocalOptions}
use rsvim.Evloop.Start.{NodeIds, widgets, init_buffers, init_windows}
use rsvim.Evloop.Start.Buffers.{init_windows_panics}
use rsvim.Evloop.Start.Windows.{init_windows_lem}

abbrev terminal : U16Size
terminal = record { width = 2; height = 3 }

abbrev options : WindowLocalOptions
options = record { wrap = true; line_break = false }

abbrev ids : NodeIds
ids = record { window_root = 2; window_content = 3; cursor = 4 }

abbrev one_buffer : BuffersManager texts files
one_buffer = record {
  next_id = 2;
  arcs = (1, two_lines) ∷ [];
  buffers = (1, 1) ∷ [];
  buffers_by_path = (none, 1) ∷ [];
  local_options = default_options;
}

init_windows_lem_example :
    (tree : Tree corners (widgets corners)) × (init_windows ids terminal options one_buffer
        (new tt 1 terminal)
      ≡ ok tree)
    × Guarded tree
    × (tree.cursor_id ≡ some 4)
    × (current_window_id tree ≡ ok (some 2))
init_windows_lem_example =
    init_windows_lem 1 ids terminal options one_buffer 1 1 two_lines widths refl refl lines_wide
      (inr refl) (omega arith, omega arith, omega arith, omega arith)
      (omega arith, omega arith, omega arith, omega arith)

-- A disk on which no file may be read.
abbrev locked_disk : FileSystem texts files
locked_disk = record disk { open_file = λ p. failed tt }

init_windows_panics_example :
    (buffers : BuffersManager texts files) × (init_buffers locked_disk (1 ∷ []) Manager.new
      ≡ ok buffers)
    × (init_windows {g = corners} ids terminal options buffers (new tt 1 terminal) ≡ panic)
init_windows_panics_example =
    init_windows_panics locked_disk 1 [] ids terminal options (new tt 1 terminal)
      ((1, tt, refl, refl, refl), tt)
