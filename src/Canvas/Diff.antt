-- ===== src/Canvas/Diff.antt =====
-- The canvas of rsvim_core/src/ui/canvas.rs, and its two diff algorithms. A `while` loop takes fuel,
-- one round for each column that is left and one for the last test.
pub mod Ready
pub mod Runs
pub mod Rows
use package.rsvim.Prelude.{
  ℕ, zero, suc, ◌+◌, ◌-◌, Bool, true, false, ◌&&◌, ltb, if◌then◌else◌, List, [], ◌∷◌, ◌++◌, map,
  Outcome, ok, stuck, ◌>>=◌, ◌>>◌, assert,
}
use package.rsvim.Cart.{U16Pos, U16Size, as_u16}
use package.rsvim.Canvas.Cell.{Crossterm, Cell, Symbol, space_code, cell_eq}
use package.rsvim.Canvas.Cursor
use package.rsvim.Canvas.Frame
use package.rsvim.Canvas.Frame.{Frame}
use package.rsvim.Canvas.Shader.{ShaderCommand, cursor_move_to, style_print_string}

pub record Canvas (s : Crossterm) : Type 0 where
  pub frame : Frame s
  pub prev_frame : Frame s

-- `if c.symbol().is_empty() { " " } else { c.symbol() }`
abbrev pub symbol_or_space : Symbol → Symbol
symbol_or_space [] = space_code ∷ []
symbol_or_space (c ∷ cs) = c ∷ cs

-- `.join("")`
unfoldable pub join : List Symbol → Symbol
join [] = []
join (x ∷ xs) = x ++ join xs

module _ {s : Crossterm} where
  unfoldable pub new : U16Size → Canvas s
  unfolding Frame.new Cursor.default
  new size = record {
    prev_frame = Frame.new size Cursor.default;
    frame = Frame.new size Cursor.default;
  }

  abbrev pub size : Canvas s → U16Size
  size can = Frame.size can.frame

  abbrev pub prev_size : Canvas s → U16Size
  prev_size can = Frame.size can.prev_frame

  -- The loop of `_next_same_cell_in_row`. A column is below the width, so `+= 1` does not overflow.
  unfoldable pub next_same_loop : ℕ → Canvas s → ℕ → ℕ → Outcome ℕ
  next_same_loop zero can row col = stuck
  next_same_loop (suc fuel) can row col =
      let pos : U16Pos = record { x = col; y = row } in
      let next = next_same_loop fuel can row (col + 1) in
      if ltb col (size can).width
      then (do
        cell2 ← Frame.get_cell can.frame pos
        prev_cell2 ← Frame.get_cell can.prev_frame pos
        if cell_eq cell2 prev_cell2 then ok col else next)
      else ok col

  unfoldable pub next_same_cell_in_row : Canvas s → ℕ → ℕ → Outcome ℕ
  next_same_cell_in_row can row col = next_same_loop ((size can).width - col + 1) can row col

  unfoldable pub make_print_shaders : Canvas s → ℕ → ℕ → ℕ → Outcome (List ShaderCommand)
  make_print_shaders can row start_col end_col = do
    assert (ltb start_col end_col)
    new_cells ←
        Frame.get_cells_at can.frame (record { x = start_col; y = row }) (end_col - start_col)
    let new_contents = join (map (λ c. symbol_or_space c.symbol) new_cells)
    ok (cursor_move_to (record { x = start_col; y = row }) ∷ style_print_string new_contents ∷ [])

  -- The `while` loop over the columns of one row, which the two algorithms share.
  unfoldable pub diff_row : ℕ → Canvas s → ℕ → ℕ → Outcome (List ShaderCommand)
  diff_row zero can row col = stuck
  diff_row (suc fuel) can row col =
      let pos : U16Pos = record { x = col; y = row } in
      let rest = λ (at : ℕ). diff_row fuel can row at in
      if ltb col (size can).width
      then (do
        cell ← Frame.get_cell can.frame pos
        prev_cell ← Frame.get_cell can.prev_frame pos
        if cell_eq cell prev_cell then rest (col + 1) else (do
          col_end_at ← next_same_cell_in_row can row col
          if ltb col col_end_at
              then (do
                print_shaders ← make_print_shaders can row col col_end_at
                shaders ← rest col_end_at
                ok (print_shaders ++ shaders))
              else rest col))
      else ok []

  -- `for row in 0..size.height()`
  unfoldable pub brute_force_rows : ℕ → Canvas s → ℕ → Outcome (List ShaderCommand)
  brute_force_rows zero can row = ok []
  brute_force_rows (suc rounds) can row = do
    shaders ← diff_row ((size can).width + 1) can row 0
    rest ← brute_force_rows rounds can (row + 1)
    ok (shaders ++ rest)

  unfoldable pub brute_force_diff : Canvas s → Outcome (List ShaderCommand)
  brute_force_diff can =
      if Frame.zero_sized can.frame then ok [] else brute_force_rows (size can).height can 0

  -- `for (row, dirty) in frame.dirty_rows().iter().enumerate()`
  unfoldable pub dirty_marks_rows : List Bool → Canvas s → ℕ → Outcome (List ShaderCommand)
  dirty_marks_rows [] can row = ok []
  dirty_marks_rows (dirty ∷ rows) can row = do
    shaders ←
        if ltb row (size can).height && dirty
        then diff_row ((size can).width + 1) can (as_u16 row) 0
        else ok []
    rest ← dirty_marks_rows rows can (row + 1)
    ok (shaders ++ rest)

  unfoldable pub dirty_marks_diff : Canvas s → Outcome (List ShaderCommand)
  dirty_marks_diff can =
      if Frame.zero_sized can.frame
      then ok []
      else dirty_marks_rows can.frame.iframe.dirty_rows can 0
