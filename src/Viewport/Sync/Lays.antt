-- ===== src/Viewport/Sync/Lays.antt =====
-- What the loop over the lines needs of a laid out line, with or without wrapping.
use rsvim.Prelude.{
  ℕ, ◌+◌, ◌≤◌, ◌<◌, ◌≡◌, sym, ◌∙◌, ap, ◌⊎◌, inl, List, [], ◌∷◌, ◌++◌, length, arith, Outcome, ok,
}
use mathlib.Core.List.{append-nil}
use rsvim.Cart.{u16_mod}
use rsvim.Buf.Rope.{concat}
use rsvim.Viewport.Rows.{LineViewport}
use rsvim.Viewport.Scan.{Scan, nowrap_line, wrap_line}
use rsvim.Viewport.Scan.Tiles.{sum, rows_of, Begins, AreRuns, last_sum, AllWide}
use rsvim.Viewport.Scan.Wrap.Lines.{wrap_line_lem}
use rsvim.Viewport.Scan.Nowrap.{nowrap_line_lem}

module _ (w : ℕ → ℕ) where
  -- Runs with a character or more, of at most `width` columns.
  abbrev pub Fit : ℕ → List (List ℕ) → Type 0
  Fit width [] = Unit
  Fit width (run ∷ runs) =
      Begins w width 0 run × (0 < length run) × (sum w run ≤ width) × Fit width runs

  -- The rows of a line show its beginning, from the row `wrow` on.
  pub record Shows (width : ℕ) (line : List ℕ) (wrow : ℕ) (v : LineViewport) : Type 0 where
    pub runs : List (List ℕ)
    pub rest : List ℕ
    pub split : line ≡ concat runs ++ rest
    pub placed : v.rows ≡ rows_of w runs wrow 0 0
    pub fit : Fit width runs
    pub start_fills : v.start_filled_columns ≡ 0
    pub end_fills : last_sum w runs + v.end_filled_columns ≤ width

  abbrev pub line_of : Scan → LineViewport
  line_of s = record {
    rows = s.rows;
    start_filled_columns = s.start_fills;
    end_filled_columns = s.end_fills;
  }

  -- A line with a character returns, and shows its beginning: it ends in its last row, or in the last row of
  -- the window, and then the loop over the lines ends as well.
  pub record Lays (width height : ℕ) (line : List ℕ) (wrow : ℕ) (r : Outcome Scan) : Type 0 where
    pub after : Scan
    pub returns : r ≡ ok after
    pub shows : Shows width line wrow (line_of after)
    pub some_run : 0 < length shows.runs
    pub ends :
        ((after.wrow + 1 ≡ wrow + length shows.runs) × (after.wrow < height))
        ⊎ ((after.wrow ≡ height) × (wrow + length shows.runs ≡ height))

  AreRuns-Fit :
      (width : ℕ) (runs : List (List ℕ)) (rest : List ℕ)
      → AreRuns w width runs rest
      → Fit width runs
  AreRuns-Fit width [] rest h = tt
  AreRuns-Fit width (run ∷ runs) rest (begins, pos, small, full, h) =
      (begins, pos, small, AreRuns-Fit width runs rest h)

  module _ (char_width : ℕ → Outcome ℕ) (width height : ℕ) (line : List ℕ) (wrow : ℕ)
      (pos_width : 0 < width) (small_width : width < u16_mod) (small_height : height + 1 < u16_mod)
      (inside : wrow < height) (some_char : 0 < length line)
      (wide : AllWide w char_width width line) where
    pub wrap_line-Lays : Lays width height line wrow (wrap_line char_width width height 0 line wrow)
    wrap_line-Lays =
        let v =
          wrap_line_lem char_width w width height line wrow pos_width small_width small_height
            inside some_char wide in
        record {
          after = v.after;
          returns = v.returns;
          shows = record {
            runs = v.runs;
            rest = v.rest;
            split = v.split;
            placed = v.placed;
            fit = AreRuns-Fit width v.runs v.rest v.are_runs;
            start_fills = v.start_fills;
            end_fills = v.end_fills;
          };
          some_run = v.some_run;
          ends = ground (arith, v.ends);
        }

    pub nowrap_line-Lays :
        Lays width height line wrow (nowrap_line char_width width height 0 line wrow)
    unfolding rows_of
    nowrap_line-Lays =
        let v =
          nowrap_line_lem char_width w width height line wrow pos_width small_width some_char
            wide in
        record {
          after = v.after;
          returns = v.returns;
          shows = record {
            runs = v.run ∷ [];
            rest = v.rest;
            split = v.split ∙ ap (λ t. t ++ v.rest) (sym (append-nil v.run));
            placed = v.placed;
            fit = (v.begins, v.pos_run, v.small, tt);
            start_fills = v.start_fills;
            end_fills = v.end_fills;
          };
          some_run = omega arith;
          ends = inl (ground (arith, v.stays), ground (arith, v.stays));
        }
