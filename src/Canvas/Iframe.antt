-- ===== src/Canvas/Iframe.antt =====
-- rsvim_core/src/ui/canvas/internal/iframe.rs: the cells of a frame in one vector, row by row, with
-- a mark for each dirty row. A method on `&mut self` returns the new frame with its result.
pub mod Valid
pub mod Region
pub mod Write
pub mod Index
use package.rsvim.Prelude.{
  ℕ, zero, suc, ◌+◌, ◌-◌, ◌*◌, ◌/◌, ◌%◌, Bool, true, false, not, ◌&&◌, ◌||◌, ltb, leb, ◌==◌,
  if◌then◌else◌, Option, none, some, List, [], ◌∷◌, ◌++◌, length, get_elem?, set, take, drop,
  replicate, Outcome, ok, panic, stuck, ◌>>=◌, ◌>>◌, unwrap, assert,
}
use package.rsvim.Cart.{Point, U16Pos, U16Size, as_u16, add_u16}
use package.rsvim.Canvas.Cell.{Crossterm, Cell, Symbol}
use package.rsvim.Canvas.Cell

pub record Iframe (s : Crossterm) : Type 0 where
  pub size : U16Size
  pub cells : List (Cell s)
  pub dirty_rows : List Bool

-- `Range<usize>`, left-inclusive and right-exclusive.
pub record Range : Type 0 where
  pub start : ℕ
  pub end : ℕ

module _ {ℓ} {A : Type ℓ} where
  -- `xs[start..end]`
  unfoldable pub slice : List A → Range → Outcome (List A)
  slice xs r =
      if leb r.start r.end && leb r.end (length xs)
      then ok (take (r.end - r.start) (drop r.start xs))
      else panic

  -- `xs.splice(range, ys)`: the vector after it, and the elements that it removes.
  unfoldable pub splice : List A → Range → List A → Outcome (List A × List A)
  unfolding slice
  splice xs r ys = do removed ← slice xs r; ok (take r.start xs ++ (ys ++ drop r.end xs), removed)

  -- `xs.resize(n, default)`
  unfoldable pub resize : List A → ℕ → A → List A
  resize xs n default = take n xs ++ replicate (n - length xs) default

  -- `xs[i] = v`
  unfoldable pub store : List A → ℕ → A → Outcome (List A)
  store xs i v = if ltb i (length xs) then ok (set xs i v) else panic

-- The rows that `for row in y..(y + rounds)` visits. A row past the vector is passed over.
unfoldable pub mark_rows : ℕ → ℕ → List Bool → List Bool
mark_rows zero y rows = rows
mark_rows (suc rounds) y rows =
    mark_rows rounds (y + 1) (if ltb y (length rows) then set rows y true else rows)

module _ {s : Crossterm} where
  unfoldable pub new : U16Size → Iframe s
  new size =
      let n = size.height * size.width in
      record {
        size = size;
        cells = replicate n Cell.default;
        dirty_rows = replicate size.height false;
      }

  unfoldable pub xy2idx : Iframe s → ℕ → ℕ → ℕ
  xy2idx f x y = y * f.size.width + x

  unfoldable pub pos2idx : Iframe s → U16Pos → ℕ
  unfolding xy2idx
  pos2idx f pos = xy2idx f pos.x pos.y

  unfoldable pub pos2range : Iframe s → U16Pos → ℕ → Range
  unfolding pos2idx
  pos2range f pos n =
      let start_idx = pos2idx f pos in
      let end_idx = start_idx + n in record { start = start_idx; end = end_idx }

  unfoldable pub idx2range : Iframe s → ℕ → ℕ → Range
  idx2range f index n = let end_idx = index + n in record { start = index; end = end_idx }

  -- The remainder by a width of 0 panics.
  unfoldable pub idx2xy : Iframe s → ℕ → Outcome (ℕ × ℕ)
  idx2xy f index = do
    assert (leb index (length f.cells))
    assert (not (f.size.width == 0))
    ok (index % f.size.width, index / f.size.width)

  unfoldable pub idx2pos : Iframe s → ℕ → Outcome U16Pos
  unfolding idx2xy
  idx2pos f index = do xy ← idx2xy f index; ok (record { x = as_u16 xy.0; y = as_u16 xy.1 })

  unfoldable pub zero_sized : Iframe s → Bool
  zero_sized f = f.size.height == 0 || f.size.width == 0

  unfoldable pub set_size : Iframe s → U16Size → Iframe s × U16Size
  unfolding resize
  set_size f size =
      let old_size = f.size in
      let cells = resize f.cells (size.height * size.width) Cell.default in
      (record { size = size; cells = cells; dirty_rows = replicate size.height true }, old_size)

  unfoldable pub contains_index : Iframe s → ℕ → Bool
  contains_index f index = ltb index (length f.cells)

  unfoldable pub contains_range : Iframe s → Range → Bool
  contains_range f range = ltb range.start (length f.cells) && leb range.end (length f.cells)

  unfoldable pub try_get_cell : Iframe s → U16Pos → Outcome (Option (Cell s))
  unfolding pos2idx contains_index
  try_get_cell f pos =
      let index = pos2idx f pos in
      if contains_index f index
      then (do c ← unwrap (get_elem? f.cells index); ok (some c))
      else ok none

  unfoldable pub get_cell : Iframe s → U16Pos → Outcome (Cell s)
  unfolding try_get_cell
  get_cell f pos = do c ← try_get_cell f pos; unwrap c

  unfoldable pub try_set_cell : Iframe s → U16Pos → Cell s → Outcome (Iframe s × Option (Cell s))
  unfolding pos2idx contains_index store
  try_set_cell f pos cell =
      let index = pos2idx f pos in
      if contains_index f index
      then (do
        old_cell ← unwrap (get_elem? f.cells index)
        cells ← store f.cells index cell
        dirty_rows ← store f.dirty_rows pos.y true
        ok (record f { cells = cells; dirty_rows = dirty_rows }, some old_cell))
      else ok (f, none)

  unfoldable pub set_cell : Iframe s → U16Pos → Cell s → Outcome (Iframe s × Cell s)
  unfolding try_set_cell
  set_cell f pos cell = do r ← try_set_cell f pos cell; old ← unwrap r.1; ok (r.0, old)

  unfoldable pub set_empty_cell : Iframe s → U16Pos → Outcome (Iframe s × Cell s)
  unfolding set_cell
  set_empty_cell f pos = set_cell f pos Cell.empty

  unfoldable pub try_set_empty_cell : Iframe s → U16Pos → Outcome (Iframe s × Option (Cell s))
  unfolding try_set_cell
  try_set_empty_cell f pos = try_set_cell f pos Cell.empty

  unfoldable pub try_get_cells_at : Iframe s → U16Pos → ℕ → Outcome (Option (List (Cell s)))
  unfolding pos2range contains_range slice
  try_get_cells_at f pos n =
      let range = pos2range f pos n in
      if contains_range f range then (do cs ← slice f.cells range; ok (some cs)) else ok none

  unfoldable pub get_cells_at : Iframe s → U16Pos → ℕ → Outcome (List (Cell s))
  unfolding try_get_cells_at
  get_cells_at f pos n = do cs ← try_get_cells_at f pos n; unwrap cs

  unfoldable pub try_set_cells_at :
      Iframe s → U16Pos → List (Cell s) → Outcome (Iframe s × Option (List (Cell s)))
  unfolding pos2range contains_range idx2pos add_u16 mark_rows splice
  try_set_cells_at f pos cells =
      let range = pos2range f pos (length cells) in
      if contains_range f range
      then (do
        end_at ← idx2pos f range.end
        last ← add_u16 end_at.y 1
        let dirty_rows = mark_rows (last - pos.y) pos.y f.dirty_rows
        r ← splice f.cells range cells
        ok (record f { cells = r.0; dirty_rows = dirty_rows }, some r.1))
      else ok (f, none)

  unfoldable pub set_cells_at :
      Iframe s → U16Pos → List (Cell s) → Outcome (Iframe s × List (Cell s))
  unfolding try_set_cells_at
  set_cells_at f pos cells = do r ← try_set_cells_at f pos cells; old ← unwrap r.1; ok (r.0, old)

  unfoldable pub set_empty_cells_at : Iframe s → U16Pos → ℕ → Outcome (Iframe s × List (Cell s))
  unfolding set_cells_at
  set_empty_cells_at f pos n = set_cells_at f pos (replicate n Cell.empty)

  unfoldable pub try_set_empty_cells_at :
      Iframe s → U16Pos → ℕ → Outcome (Iframe s × Option (List (Cell s)))
  unfolding try_set_cells_at
  try_set_empty_cells_at f pos n = try_set_cells_at f pos (replicate n Cell.empty)

  unfoldable pub reset_dirty_rows : Iframe s → Iframe s
  reset_dirty_rows f = record f { dirty_rows = replicate f.size.height false }
