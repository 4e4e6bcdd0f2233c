-- ===== src/Canvas/Iframe/Write.antt =====
-- What the writes of a frame change, and that reads see it.
use rsvim.Prelude.{
  ℕ, ◌≡◌, refl, ◌∙◌, ap, ◌==◌, true, ok, arith, if◌then◌else◌, some, set, get_elem?, get_elem?-some,
  get_elem?-none, unwrap, get_elem?-set, length-set, Outcome,
}
use rsvim.Cart.{U16Pos}
use rsvim.Canvas.Cell.{Crossterm, Cell}
use rsvim.Canvas.Cursor.{pos_eq}
use rsvim.Canvas.Iframe.{Iframe, pos2idx, get_cell, set_cell}
use rsvim.Canvas.Iframe.Valid.{IsValid, Inside, index-lt, try_set_cell_in}
use rsvim.Canvas.Iframe.Index.{pos2idx_inj}

module _ {s : Crossterm} where
  -- A read is the element at the position's index, and panics where there is none.
  pub get_cell_lem :
      (f : Iframe s) (pos : U16Pos) → get_cell f pos ≡ unwrap (get_elem? f.cells (pos2idx f pos))
  unfolding get_cell
  get_cell_lem f pos = ground (arith, get_elem?-none f.cells (pos2idx f pos))

  pub get_cell-eq-ok :
      (f : Iframe s) (pos : U16Pos) {c : Cell s}
      → get_cell f pos ≡ ok c
      → get_elem? f.cells (pos2idx f pos) ≡ some c
  get_cell-eq-ok f pos e = ground (arith, get_cell_lem f pos)

  pub get_cell_in :
      (f : Iframe s) (pos : U16Pos)
      → IsValid f
      → Inside f pos
      → (c : Cell s) × (get_elem? f.cells (pos2idx f pos) ≡ some c) × (get_cell f pos ≡ ok c)
  get_cell_in f pos v h =
      let (c, e) =
        get_elem?-some f.cells (pos2idx f pos) (omega (arith, v.cells, index-lt f pos h)) in
      (c, e, ground (arith, e, get_cell_lem f pos))

  -- A write that returned, read back at every position of the frame.
  pub record Writes (f : Iframe s) (pos : U16Pos) (cell : Cell s) (r : Outcome (Iframe s × Cell s))
      : Type 0 where
    pub after : Iframe s
    pub old : Cell s
    pub returns : r ≡ ok (after, old)
    pub read_old : get_cell f pos ≡ ok old
    pub reads :
        (q : U16Pos)
        → Inside f q
        → get_cell after q ≡ (if pos_eq pos q then ok cell else get_cell f q)
    pub placed :
        (i : ℕ)
        → get_elem? after.cells i ≡ (if pos2idx f pos == i then some cell else get_elem? f.cells i)
    pub marked :
        (r : ℕ)
        → get_elem? after.dirty_rows r
          ≡ (if pos.y == r then some true else get_elem? f.dirty_rows r)
    pub size : after.size ≡ f.size
    pub valid : IsValid after

  pos2idx_cong : (f : Iframe s) (p q : U16Pos) → p ≡ q → pos2idx f p ≡ pos2idx f q
  pos2idx_cong f p q e = ap (pos2idx f) e

  pub pos2idx_size : (f g : Iframe s) (p : U16Pos) → f.size ≡ g.size → pos2idx f p ≡ pos2idx g p
  unfolding pos2idx
  pos2idx_size f g p e = ground arith

  -- Two positions of the frame have one index exactly when they are equal.
  same_index :
      (f : Iframe s) (p q : U16Pos)
      → Inside f p
      → Inside f q
      → (pos2idx f p == pos2idx f q) ≡ pos_eq p q
  same_index f p q hp hq = ground (arith, pos2idx_inj f p q, pos2idx_cong f p q)

  reads_after :
      (f g : Iframe s) (pos q : U16Pos) (cell : Cell s)
      → IsValid f
      → Inside f pos
      → Inside f q
      → g.size ≡ f.size
      → g.cells ≡ set f.cells (pos2idx f pos) cell
      → get_cell g q ≡ (if pos_eq pos q then ok cell else get_cell f q)
  reads_after f g pos q cell v h hq es ec = ground (
    arith,
    get_cell_lem g q,
    get_cell_lem f q,
    same_index f pos q h hq,
    pos2idx_size g f q es,
    v.cells,
    index-lt f pos h,
    get_elem?-set f.cells (pos2idx f pos) (pos2idx f q) cell,
  )

  -- Inside a valid frame a write returns, gives back the cell that it replaces, is read back at its
  -- position, leaves every other position as it was, marks its row and no other, and keeps the frame
  -- valid.
  pub set_cell-Writes :
      (f : Iframe s) (pos : U16Pos) (cell : Cell s)
      → IsValid f
      → Inside f pos
      → Writes f pos cell (set_cell f pos cell)
  unfolding set_cell
  set_cell-Writes f pos cell v h =
      let (old, e, w) = try_set_cell_in f pos cell v (index-lt f pos h) in
      record {
        after = record f {
          cells = set f.cells (pos2idx f pos) cell;
          dirty_rows = set f.dirty_rows pos.y true;
        };
        old = old;
        returns = ground (arith, w);
        read_old = ground (arith, e, get_cell_lem f pos);
        reads = λ q hq. reads_after f _ pos q cell v h hq refl refl;
        placed = λ i.
            get_elem?-set f.cells (pos2idx f pos) i cell (omega (arith, v.cells, index-lt f pos h));
        marked = λ r. get_elem?-set f.dirty_rows pos.y r true (omega (arith, v.rows));
        size = refl;
        valid = record { cells = length-set _ _ _ ∙ v.cells; rows = length-set _ _ _ ∙ v.rows };
      }
