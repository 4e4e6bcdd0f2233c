-- ===== src/Canvas/Iframe/Region.antt =====
-- `try_set_cells_at`: a run of cells is replaced, the rows that it touches are marked.
use rsvim.Prelude.{
  ℕ, zero, suc, ◌+◌, ◌-◌, ◌/◌, ◌≤◌, ◌<◌, ◌≡◌, refl, ◌∙◌, leb, ltb, ◌&&◌, Bool, true, length, ok,
  arith, if◌then◌else◌, Option, some, none, List, ◌++◌, take, drop, set, get_elem?, get_elem?-set,
  length-set, length-append, length-take, length-drop, get_elem?-append, get_elem?-take,
  get_elem?-drop, Outcome,
}
use native.Mathlib.Nat.{div-lt_iff_lt-mul}
use rsvim.Cart.{U16Pos, u16_mod}
use rsvim.Canvas.Cell.{Crossterm, Cell}
use rsvim.Canvas.Iframe.{Iframe, pos2idx, try_set_cells_at, mark_rows}
use rsvim.Canvas.Iframe.Valid.{IsValid, length-mark_rows}

module _ {A : Type 0} where
  length-spliced :
      (xs ys : List A) (start end : ℕ)
      → start + length ys ≡ end
      → end ≤ length xs
      → length (take start xs ++ (ys ++ drop end xs)) ≡ length xs
  length-spliced xs ys start end e h = omega (
    arith,
    length-append (take start xs) (ys ++ drop end xs),
    length-append ys (drop end xs),
    length-take start xs,
    length-drop end xs,
  )

  get_elem?-spliced :
      (xs ys : List A) (start end i : ℕ)
      → start + length ys ≡ end
      → end ≤ length xs
      → get_elem? (take start xs ++ (ys ++ drop end xs)) i
        ≡ (if leb start i && ltb i end then get_elem? ys (i - start) else get_elem? xs i)
  get_elem?-spliced xs ys start end i e h = ground (
    arith,
    get_elem?-append (take start xs) (ys ++ drop end xs) i,
    get_elem?-append ys (drop end xs) (i - length (take start xs)),
    length-take start xs,
    get_elem?-take start xs i,
    get_elem?-drop end xs (i - length (take start xs) - length ys),
  )

get_elem?-mark_rows :
    (n y r : ℕ) (rows : List Bool)
    → get_elem? (mark_rows n y rows) r
      ≡ (if leb y r && (ltb r (y + n) && ltb r (length rows)) then some true else get_elem? rows r)
unfolding mark_rows
get_elem?-mark_rows zero y r rows = ground arith
get_elem?-mark_rows (suc n) y r rows = ground (
  arith,
  get_elem?-mark_rows n (y + 1) r (if ltb y (length rows) then set rows y true else rows),
  get_elem?-set rows y r true,
  length-set rows y true,
)

module _ {s : Crossterm} where
  -- A replacement of `cells` from `pos` on that returned.
  pub record Replaces (f : Iframe s) (pos : U16Pos) (cells : List (Cell s))
      (r : Outcome (Iframe s × Option (List (Cell s)))) : Type 0 where
    pub after : Iframe s
    pub old : List (Cell s)
    pub returns : r ≡ ok (after, some old)
    pub removed :
        (j : ℕ)
        → get_elem? old j
          ≡ (if ltb j (length cells) then get_elem? f.cells (pos2idx f pos + j) else none)
    pub placed :
        (i : ℕ)
        → get_elem? after.cells i ≡ (
            if leb (pos2idx f pos) i && ltb i (pos2idx f pos + length cells)
            then get_elem? cells (i - pos2idx f pos)
            else get_elem? f.cells i)
    pub marked :
        (r : ℕ)
        → get_elem? after.dirty_rows r ≡ (
            if leb pos.y r
              && (leb r ((pos2idx f pos + length cells) / f.size.width) && ltb r f.size.height)
            then some true
            else get_elem? f.dirty_rows r)
    pub size : after.size ≡ f.size
    pub valid : IsValid after

  module _ (f : Iframe s) (pos : U16Pos) (cells : List (Cell s)) where
    open f use {size as area, cells as before}

    abbrev start : ℕ
    start = pos2idx f pos

    abbrev end : ℕ
    end = pos2idx f pos + length cells

    -- A range that starts inside the vector and does not leave it is replaced, in any frame of
    -- fewer than 65535 rows and at most 65535 columns.
    pub try_set_cells_at-Replaces :
        IsValid f
        → area.width < u16_mod
        → area.height + 1 < u16_mod
        → start < length before
        → end ≤ length before
        → Replaces f pos cells (try_set_cells_at f pos cells)
    unfolding try_set_cells_at
    try_set_cells_at-Replaces v hw hh hs he =
        let w = area.width in
        let pos_w : 0 < w = grind (arith, v.cells) in
        let row : end / w < area.height + 1 =
          (div-lt_iff_lt-mul pos_w).1 (grind (arith, v.cells)) in
        record {
          after = record f {
            cells = take start before ++ (cells ++ drop end before);
            dirty_rows = mark_rows (end / w + 1 - pos.y) pos.y f.dirty_rows;
          };
          old = take (length cells) (drop start before);
          returns = ground arith;
          removed = λ j. ground (
            arith,
            get_elem?-take (length cells) (drop start before) j,
            get_elem?-drop start before j,
          );
          placed = λ i. get_elem?-spliced before cells start end i refl he;
          marked = λ r.
              ground
                (arith, get_elem?-mark_rows (end / w + 1 - pos.y) pos.y r f.dirty_rows, v.rows);
          size = refl;
          valid = record {
            cells = length-spliced before cells start end refl he ∙ v.cells;
            rows = length-mark_rows (end / w + 1 - pos.y) pos.y f.dirty_rows ∙ v.rows;
          };
        }

    -- A replacement that gives cells back lay inside the vector.
    pub try_set_cells_at_range :
        {g : Iframe s} {old : List (Cell s)}
        → try_set_cells_at f pos cells ≡ ok (g, some old)
        → (start < length before) × (end ≤ length before)
    unfolding try_set_cells_at
    try_set_cells_at_range e = ground arith
