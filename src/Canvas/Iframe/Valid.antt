-- ===== src/Canvas/Iframe/Valid.antt =====
-- The shape invariant of a frame: one cell for each position of its size, one mark for each row.
use rsvim.Prelude.{
  ℕ, zero, suc, ◌+◌, ◌-◌, ◌*◌, ◌≤◌, ◌<◌, ◌≡◌, refl, ◌∙◌, Bool, true, ltb, List, length,
  length-append, length-take, length-replicate, length-set, ok, arith, some, none, replicate, take,
  get_elem?, set, get_elem?-some, if◌then◌else◌,
}
use rsvim.Cart.{U16Pos, U16Size}
use rsvim.Canvas.Cell.{Crossterm, Cell, default}
use rsvim.Canvas.Iframe.{
  Iframe, new, set_size, try_set_cell, reset_dirty_rows, mark_rows, resize, pos2idx,
}

-- A vector resized to `n` has `n` elements.
length-resize {ℓ} : {A : Type ℓ} (xs : List A) (n : ℕ) (a : A) → length (resize xs n a) ≡ n
unfolding resize
length-resize xs n a = omega (
  arith,
  length-append (take n xs) (replicate (n - length xs) a),
  length-take n xs,
  length-replicate (n - length xs) a,
)

pub length-mark_rows : (n y : ℕ) (rows : List Bool) → length (mark_rows n y rows) ≡ length rows
unfolding mark_rows
length-mark_rows zero y rows = refl
length-mark_rows (suc n) y rows =
    length-mark_rows n (y + 1) (if ltb y (length rows) then set rows y true else rows)
    ∙ ground (arith, length-set rows y true)

module _ {s : Crossterm} where
  pub record IsValid (f : Iframe s) : Type 0 where
    pub cells : length f.cells ≡ f.size.height * f.size.width
    pub rows : length f.dirty_rows ≡ f.size.height

  -- The position lies in the frame's rectangle.
  abbrev pub Inside : Iframe s → U16Pos → Type 0
  Inside f pos = (pos.x < f.size.width) × (pos.y < f.size.height)

  pub index-lt :
      (f : Iframe s) (pos : U16Pos) → Inside f pos → pos2idx f pos < f.size.height * f.size.width
  unfolding pos2idx
  index-lt f pos h = grind arith

  -- An index of the vector belongs to a row of the frame.
  pub row-lt :
      (f : Iframe s) (pos : U16Pos)
      → pos2idx f pos < f.size.height * f.size.width
      → pos.y < f.size.height
  unfolding pos2idx
  row-lt f pos h = grind arith

  pub new-IsValid : (size : U16Size) → IsValid (new {s = s} size)
  unfolding new
  new-IsValid size = record { cells = length-replicate _ _; rows = length-replicate _ _ }

  -- After a resize, of a valid frame or not, the frame is valid: one cell for each position of the new
  -- size, one mark for each of its rows.
  pub set_size-IsValid : (f : Iframe s) (size : U16Size) → IsValid (set_size f size).0
  unfolding set_size
  set_size-IsValid f size = record {
    cells = length-resize f.cells _ default;
    rows = length-replicate _ _;
  }

  pub reset_dirty_rows-IsValid : (f : Iframe s) → IsValid f → IsValid (reset_dirty_rows f)
  unfolding reset_dirty_rows
  reset_dirty_rows-IsValid f v = record { cells = v.cells; rows = length-replicate _ _ }

  -- What a single write does on a valid frame: the index decides, and nothing panics.
  pub try_set_cell_in :
      (f : Iframe s) (pos : U16Pos) (cell : Cell s)
      → IsValid f
      → pos2idx f pos < f.size.height * f.size.width
      → (old : Cell s) × (get_elem? f.cells (pos2idx f pos) ≡ some old)
        × (try_set_cell f pos cell
            ≡ ok (
              record f {
                cells = set f.cells (pos2idx f pos) cell;
                dirty_rows = set f.dirty_rows pos.y true;
              },
              some old,
            ))
  unfolding try_set_cell
  try_set_cell_in f pos cell v h =
      let (old, e) = get_elem?-some f.cells (pos2idx f pos) (omega (arith, v.cells)) in
      (old, e, ground (arith, e, v.cells, v.rows, row-lt f pos h))

  pub try_set_cell_out :
      (f : Iframe s) (pos : U16Pos) (cell : Cell s)
      → IsValid f
      → f.size.height * f.size.width ≤ pos2idx f pos
      → try_set_cell f pos cell ≡ ok (f, none)
  unfolding try_set_cell
  try_set_cell_out f pos cell v h = ground (arith, v.cells)
