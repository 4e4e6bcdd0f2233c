-- ===== src/Viewport/Scan/Tiles.antt =====
-- Rows as runs of characters: what the loops put together, described from the characters alone.
use rsvim.Prelude.{
  ℕ, ◌+◌, ◌≤◌, ◌<◌, ◌≡◌, refl, ◌⊎◌, true, List, [], ◌∷◌, ◌++◌, length, length-append, arith, Map,
  KeysBelow, insert_ordered_end, Outcome, ok,
}
use rsvim.Buf.Rope.{concat}
use rsvim.Viewport.Rows.{RowViewport}
use rsvim.Cart.{u16_mod, add_u16}
use rsvim.Viewport.Scan.{Scan, advance, put_row, next_row}

module _ (w : ℕ → ℕ) where
  -- The columns of a run.
  unfoldable pub sum : List ℕ → ℕ
  sum [] = 0
  sum (c ∷ cs) = w c + sum cs

  -- The columns of each character of a run that begins at the character `i` and the column `d`.
  unfoldable pub cells : List ℕ → ℕ → ℕ → Map (ℕ × ℕ)
  cells [] i d = []
  cells (c ∷ cs) i d = (i, (d, d + w c)) ∷ cells cs (i + 1) (d + w c)

  abbrev pub row_of : List ℕ → ℕ → ℕ → RowViewport
  row_of run i d = record {
    start_dcol_idx = d;
    end_dcol_idx = d + sum run;
    start_char_idx = i;
    end_char_idx = i + length run;
    char2dcolumns = cells run i d;
  }

  -- One row for each run, from the row `r`, the character `i` and the column `d` on.
  unfoldable pub rows_of : List (List ℕ) → ℕ → ℕ → ℕ → Map RowViewport
  rows_of [] r i d = []
  rows_of (run ∷ runs) r i d =
      (r, row_of run i d) ∷ rows_of runs (r + 1) (i + length run) (d + sum run)

  -- A run that the next character, if there is one, does not fit behind.
  abbrev pub IsFull : ℕ → List ℕ → List ℕ → Type 0
  IsFull width run [] = Unit
  IsFull width run (c ∷ rest) = (sum run ≡ width) ⊎ (width < sum run + w c)

  -- Every character of a run begins before the column `width`; the run begins at the column `d`.
  abbrev pub Begins : ℕ → ℕ → List ℕ → Type 0
  Begins width d [] = Unit
  Begins width d (c ∷ cs) = (d < width) × Begins width (d + w c) cs

  -- Runs with a character or more, of at most `width` columns, each as long as it can be, and no longer
  -- once it is full.
  abbrev pub AreRuns : ℕ → List (List ℕ) → List ℕ → Type 0
  AreRuns width [] rest = Unit
  AreRuns width (run ∷ runs) rest =
      Begins width 0 run
      × (0 < length run)
      × (sum run ≤ width)
      × IsFull width run (concat runs ++ rest)
      × AreRuns width runs rest

  -- The columns of the last run.
  abbrev pub last_sum : List (List ℕ) → ℕ
  last_sum [] = 0
  last_sum (run ∷ []) = sum run
  last_sum (run ∷ run' ∷ runs) = last_sum (run' ∷ runs)

  -- Every character of a text has its width, at most `width`.
  abbrev pub AllWide : (ℕ → Outcome ℕ) → ℕ → List ℕ → Type 0
  AllWide char_width width [] = Unit
  AllWide char_width width (c ∷ cs) =
      ((char_width c ≡ ok (w c)) × (w c ≤ width)) × AllWide char_width width cs

  -- The variables of the loops in the middle of a row: `run` is what the row holds.
  abbrev pub in_row : ℕ → ℕ → ℕ → List ℕ → Map RowViewport → Scan
  in_row wrow i d run rows = record {
    wrow = wrow;
    wcol = sum run;
    dcol = d + sum run;
    start_dcol = d;
    end_dcol = d + sum run;
    start_c_idx = i;
    end_c_idx = i + length run;
    start_c_idx_init = true;
    ch2dcols = cells run i d;
    rows = rows;
    start_fills = 0;
    end_fills = 0;
  }

  pub sum_snoc : (run : List ℕ) (c : ℕ) → sum (run ++ c ∷ []) ≡ sum run + w c
  unfolding sum
  sum_snoc [] c = omega arith
  sum_snoc (a ∷ run) c = omega (arith, sum_snoc run c)

  pub Begins-snoc :
      (width d : ℕ) (run : List ℕ) (c : ℕ)
      → Begins width d run
      → d + sum run < width
      → Begins width d (run ++ c ∷ [])
  unfolding sum
  Begins-snoc width d [] c h lt = (omega arith, tt)
  Begins-snoc width d (a ∷ run) c (lt, h) lt' =
      (lt, Begins-snoc width (d + w a) run c h (omega arith))

  pub length_snoc : (run : List ℕ) (c : ℕ) → length (run ++ c ∷ []) ≡ length run + 1
  length_snoc run c = length-append run (c ∷ [])

  cells_below : (run : List ℕ) (i d k : ℕ) → i + length run ≤ k → KeysBelow k (cells run i d)
  unfolding cells
  cells_below [] i d k h = tt
  cells_below (c ∷ cs) i d k h = (omega arith, cells_below cs (i + 1) (d + w c) k (omega arith))

  cells_snoc :
      (run : List ℕ) (c i d : ℕ)
      → cells (run ++ c ∷ []) i d
        ≡ cells run i d ++ (i + length run, (d + sum run, d + sum run + w c)) ∷ []
  unfolding cells sum
  cells_snoc [] c i d = ground arith
  cells_snoc (a ∷ run) c i d = ground (arith, cells_snoc run c (i + 1) (d + w a))

  pub advance-in_row :
      (wrow i d c : ℕ) (run : List ℕ) (rows : Map RowViewport)
      → sum run + w c < u16_mod
      → advance (i + length run) (w c) (in_row wrow i d run rows)
        ≡ ok (in_row wrow i d (run ++ c ∷ []) rows)
  unfolding advance add_u16
  advance-in_row wrow i d c run rows h =
      let tile =
        insert_ordered_end (i + length run) (d + sum run, d + sum run + w c) (cells run i d)
          (cells_below run i d (i + length run) (omega arith)) in
      ground (arith, tile, cells_snoc run c i d, sum_snoc run c, length_snoc run c)

  pub put_row-in_row :
      (wrow i d : ℕ) (run : List ℕ) (rows : Map RowViewport)
      → KeysBelow wrow rows
      → put_row (in_row wrow i d run rows)
        ≡ record (in_row wrow i d run rows) { rows = rows ++ (wrow, row_of run i d) ∷ [] }
  unfolding put_row
  put_row-in_row wrow i d run rows h = rw (insert_ordered_end wrow (row_of run i d) rows h) refl

  pub next_row-in_row :
      (wrow i d : ℕ) (run : List ℕ) (rows : Map RowViewport)
      → wrow + 1 < u16_mod
      → KeysBelow wrow rows
      → next_row (i + length run) (put_row (in_row wrow i d run rows))
        ≡ ok (
            in_row
              (wrow + 1)
              (i + length run)
              (d + sum run)
              []
              (rows ++ (wrow, row_of run i d) ∷ []))
  unfolding next_row add_u16 sum cells
  next_row-in_row wrow i d run rows h k = rw (put_row-in_row wrow i d run rows k) (ground arith)
