-- ===== src/Canvas/Diff/Ready.antt =====
-- The two frames of a canvas, compared cell by cell.
use rsvim.Prelude.{ℕ, ◌+◌, ◌-◌, ◌*◌, ◌≤◌, ◌<◌, ◌≡◌, ◌↔◌, true, [], ◌∷◌, take, drop, ok, map, arith}
use rsvim.Cart.{U16Pos}
use rsvim.Canvas.Cell.{Crossterm, Cell, Symbol, cell_eq, cell_eq_iff}
use rsvim.Canvas.Frame
use rsvim.Canvas.Iframe.{pos2idx, get_cells_at}
use rsvim.Canvas.Iframe.Valid.{IsValid, Inside}
use rsvim.Canvas.Iframe.Write.{get_cell_in}
use rsvim.Canvas.Shader.{cursor_move_to, style_print_string}
use rsvim.Canvas.Diff.{Canvas, size, join, symbol_or_space, make_print_shaders}

abbrev pub at : ℕ → ℕ → U16Pos
at row col = record { x = col; y = row }

module _ {s : Crossterm} where
  -- Both frames are well formed, and they have one size.
  pub record IsReady (can : Canvas s) : Type 0 where
    pub frame : IsValid can.frame.iframe
    pub prev_frame : IsValid can.prev_frame.iframe
    pub same_size : can.prev_frame.iframe.size ≡ can.frame.iframe.size

  -- The two frames read alike at a position.
  abbrev pub IsSame : Canvas s → U16Pos → Type 0
  IsSame can p = Frame.get_cell can.frame p ≡ Frame.get_cell can.prev_frame p

  -- What the comparison of two cells in the loops decides.
  pub compare_cells :
      (can : Canvas s) (p : U16Pos)
      → IsReady can
      → Inside can.frame.iframe p
      → (c c' : Cell s) × (Frame.get_cell can.frame p ≡ ok c)
        × (Frame.get_cell can.prev_frame p ≡ ok c')
        × ((cell_eq c c' ≡ true) ↔ IsSame can p)
  unfolding Frame.get_cell
  compare_cells can p r h =
      let (c, e, g) = get_cell_in can.frame.iframe p r.frame h in
      let (c', e', g') =
        get_cell_in can.prev_frame.iframe p r.prev_frame (ground (arith, r.same_size)) in
      (c, c', g, g', ground (arith, cell_eq_iff c c', g, g'))

  -- The text of a run: the symbols of its cells, a space for an empty one.
  unfoldable pub run_text : Canvas s → ℕ → ℕ → ℕ → Symbol
  unfolding join
  run_text can row start_col end_col = join (
      map (λ c. symbol_or_space c.symbol)
        (take (end_col - start_col)
          (drop (pos2idx can.frame.iframe (at row start_col)) can.frame.iframe.cells)))

  pub make_print_shaders_lem :
      (can : Canvas s) (row a b : ℕ)
      → IsReady can
      → row < (size can).height
      → a < b
      → b ≤ (size can).width
      → make_print_shaders can row a b
        ≡ ok (cursor_move_to (at row a) ∷ style_print_string (run_text can row a b) ∷ [])
  unfolding make_print_shaders run_text Frame.get_cells_at get_cells_at
  make_print_shaders_lem can row a b r hr ha hb =
      let lt : row * (size can).width + b ≤ (size can).height * (size can).width = grind arith in
      ground (arith, r.frame.cells)
