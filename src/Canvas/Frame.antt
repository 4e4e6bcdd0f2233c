-- ===== src/Canvas/Frame.antt =====
-- rsvim_core/src/ui/canvas/frame.rs: a frame is its cells (`Iframe`) and its cursor. Each method
-- passes the call on to the cells, or reads and writes the cursor.
use rsvim.Prelude.{ℕ, Bool, Option, List, Outcome, ok, ◌>>=◌}
use rsvim.Cart.{U16Pos, U16Size}
use rsvim.Canvas.Cell.{Crossterm, Cell}
use rsvim.Canvas.Cursor.{Cursor}
use rsvim.Canvas.Iframe
use rsvim.Canvas.Iframe.{Iframe, Range}

pub record Frame (s : Crossterm) : Type 0 where
  pub iframe : Iframe s
  pub cursor : Cursor

module _ {s : Crossterm} where
  -- The frame with new cells, beside the result of the call.
  abbrev pub with_iframe {ℓ} : {A : Type ℓ} → Frame s → Iframe s × A → Frame s × A
  with_iframe f r = (record f { iframe = r.0 }, r.1)

  unfoldable pub new : U16Size → Cursor → Frame s
  unfolding Iframe.new
  new size cursor = record { iframe = Iframe.new size; cursor = cursor }

  abbrev pub size : Frame s → U16Size
  size f = f.iframe.size

  unfoldable pub zero_sized : Frame s → Bool
  unfolding Iframe.zero_sized
  zero_sized f = Iframe.zero_sized f.iframe

  unfoldable pub set_size : Frame s → U16Size → Frame s × U16Size
  set_size f size = with_iframe f (Iframe.set_size f.iframe size)

  unfoldable pub get_cell : Frame s → U16Pos → Outcome (Cell s)
  get_cell f pos = Iframe.get_cell f.iframe pos

  unfoldable pub try_get_cell : Frame s → U16Pos → Outcome (Option (Cell s))
  try_get_cell f pos = Iframe.try_get_cell f.iframe pos

  unfoldable pub set_cell : Frame s → U16Pos → Cell s → Outcome (Frame s × Cell s)
  set_cell f pos cell = do r ← Iframe.set_cell f.iframe pos cell; ok (with_iframe f r)

  unfoldable pub try_set_cell : Frame s → U16Pos → Cell s → Outcome (Frame s × Option (Cell s))
  try_set_cell f pos cell = do r ← Iframe.try_set_cell f.iframe pos cell; ok (with_iframe f r)

  unfoldable pub set_empty_cell : Frame s → U16Pos → Outcome (Frame s × Cell s)
  set_empty_cell f pos = do r ← Iframe.set_empty_cell f.iframe pos; ok (with_iframe f r)

  unfoldable pub try_set_empty_cell : Frame s → U16Pos → Outcome (Frame s × Option (Cell s))
  try_set_empty_cell f pos = do r ← Iframe.try_set_empty_cell f.iframe pos; ok (with_iframe f r)

  unfoldable pub get_cells_at : Frame s → U16Pos → ℕ → Outcome (List (Cell s))
  get_cells_at f pos n = Iframe.get_cells_at f.iframe pos n

  unfoldable pub try_get_cells_at : Frame s → U16Pos → ℕ → Outcome (Option (List (Cell s)))
  try_get_cells_at f pos n = Iframe.try_get_cells_at f.iframe pos n

  unfoldable pub set_cells_at : Frame s → U16Pos → List (Cell s) → Outcome (Frame s × List (Cell s))
  set_cells_at f pos cells = do r ← Iframe.set_cells_at f.iframe pos cells; ok (with_iframe f r)

  unfoldable pub try_set_cells_at :
      Frame s → U16Pos → List (Cell s) → Outcome (Frame s × Option (List (Cell s)))
  try_set_cells_at f pos cells = do
    r ← Iframe.try_set_cells_at f.iframe pos cells
    ok (with_iframe f r)

  unfoldable pub set_empty_cells_at : Frame s → U16Pos → ℕ → Outcome (Frame s × List (Cell s))
  set_empty_cells_at f pos n = do r ← Iframe.set_empty_cells_at f.iframe pos n; ok (with_iframe f r)

  unfoldable pub try_set_empty_cells_at :
      Frame s → U16Pos → ℕ → Outcome (Frame s × Option (List (Cell s)))
  try_set_empty_cells_at f pos n = do
    r ← Iframe.try_set_empty_cells_at f.iframe pos n
    ok (with_iframe f r)

  unfoldable pub reset_dirty_rows : Frame s → Frame s
  unfolding Iframe.reset_dirty_rows
  reset_dirty_rows f = record f { iframe = Iframe.reset_dirty_rows f.iframe }

  unfoldable pub set_cursor : Frame s → Cursor → Frame s
  set_cursor f cursor = record f { cursor = cursor }
