-- ===== src/Canvas/Draw.antt =====
-- The dirty marks while the widgets draw: a row without a mark still reads as in the previous frame.
use rsvim.Prelude.{
  ℕ, ◌+◌, ◌*◌, ◌/◌, ◌≤◌, ◌<◌, ◌≡◌, ◌⊎◌, inl, inr, false, List, length, get_elem?, some, arith,
}
use native.Mathlib.Nat.{div-add-mod', mod-lt}
use rsvim.Cart.{U16Pos}
use rsvim.Canvas.Cell.{Crossterm, Cell}
use rsvim.Canvas.Iframe.{Iframe, pos2idx, get_cell, set_cell, try_set_cells_at, reset_dirty_rows}
use rsvim.Canvas.Iframe.Valid.{Inside}
use rsvim.Canvas.Iframe.Write.{Writes, get_cell_lem}
use rsvim.Canvas.Iframe.Region.{Replaces}

-- A position of a row that the replaced run does not touch lies outside of the run.
outside_run :
    (width start n : ℕ) (pos p : U16Pos)
    → 0 < width
    → pos.y * width ≤ start
    → p.x < width
    → (p.y < pos.y) ⊎ ((start + n) / width < p.y)
    → (p.y * width + p.x < start) ⊎ (start + n ≤ p.y * width + p.x)
outside_run width start n pos p hw hs hx (inl above) =
    let far : (p.y + 1) * width ≤ pos.y * width = grind arith in inl (omega arith)
outside_run width start n pos p hw hs hx (inr below) =
    let far : ((start + n) / width + 1) * width ≤ p.y * width = grind arith in
    let last = mod-lt (start + n) hw in inr (omega (arith, div-add-mod' (start + n) width))

module _ {s : Crossterm} where
  -- A row of `f` that is not marked reads as it does in `prev`.
  abbrev pub Tracks : Iframe s → Iframe s → Type 0
  Tracks prev f =
      (p : U16Pos)
      → Inside f p
      → get_elem? f.dirty_rows p.y ≡ some false
      → get_cell f p ≡ get_cell prev p

  -- A write that does what a write inside a valid frame does keeps the marks right: a row without a
  -- mark still reads as in the previous frame.
  pub set_cell-Tracks :
      (prev f : Iframe s) (pos : U16Pos) (cell : Cell s)
      → (w : Writes f pos cell (set_cell f pos cell)) → Tracks prev f
      → Tracks prev w.after
  set_cell-Tracks prev f pos cell w t p hp clean =
      ground (arith, w.reads p, w.marked p.y, t p, w.size)

  -- A replacement that does what a replacement inside a valid frame does keeps the marks right: a
  -- row without a mark still reads as in the previous frame.
  pub try_set_cells_at-Tracks :
      (prev f : Iframe s) (pos : U16Pos) (cells : List (Cell s))
      → (w : Replaces f pos cells (try_set_cells_at f pos cells)) → Tracks prev f
      → Tracks prev w.after
  unfolding pos2idx
  try_set_cells_at-Tracks prev f pos cells w t p hp clean =
      let width = f.size.width in
      let inside : Inside f p = ground (arith, w.size) in
      let start = pos.y * width + pos.x in
      let untouched : (p.y < pos.y) ⊎ ((start + length cells) / width < p.y) =
        ground (arith, w.marked p.y) in
      ground (
        arith,
        outside_run width start (length cells) pos p (omega arith) (omega arith) inside.0 untouched,
        w.marked p.y,
        w.placed (p.y * width + p.x),
        get_cell_lem w.after p,
        get_cell_lem f p,
        w.size,
        t p inside,
      )

  -- A frame whose marks were reset tracks the frame that it was.
  pub reset_dirty_rows-Tracks : (f : Iframe s) → Tracks f (reset_dirty_rows f)
  unfolding reset_dirty_rows pos2idx
  reset_dirty_rows-Tracks f p hp clean =
      ground (arith, get_cell_lem (reset_dirty_rows f) p, get_cell_lem f p)
