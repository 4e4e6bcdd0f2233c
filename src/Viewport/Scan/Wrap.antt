-- ===== src/Viewport/Scan/Wrap.antt =====
-- A line with wrapping: the loop fills row after row, each as far as its characters fit.
pub mod Rounds
pub mod Lines
use rsvim.Prelude.{
  ℕ, suc, ◌+◌, ◌-◌, ◌≤◌, ◌<◌, ◌≡◌, refl, sym, ◌∙◌, ap, ◌⊎◌, inl, inr, Bool, true, false, ◌==◌, leb,
  ltb, Bool-cases, if◌then◌else◌, List, [], ◌∷◌, ◌++◌, length, length-append, arith, Map, KeysBelow,
  Outcome, ok, ◌>>=◌, ◌>>◌, assert,
}
use mathlib.Core.List.{append-nil, append_assoc}
use mathlib.Core.Path.{subst}
use native.Mathlib.Decide.{dec_lt}
use rsvim.Cart.{u16_mod}
use rsvim.Buf.Rope.{concat}
use rsvim.Viewport.Rows.{RowViewport}
use rsvim.Viewport.Scan.{
  Scan, Flow, next, stop, start, begin, advance, put_row, next_row, sub_usize, scan_chars,
  wrap_char, wrap_advance, wrap_line,
}
use rsvim.Viewport.Scan.Tiles.{
  sum, cells, row_of, rows_of, IsFull, Begins, AreRuns, last_sum, AllWide, in_row, sum_snoc,
  length_snoc, advance-in_row, put_row-in_row, next_row-in_row,
}

module _ (char_width : ℕ → Outcome ℕ) (w : ℕ → ℕ) (width height : ℕ) where
  -- The loop returned: `text` is the runs that it put into rows and the rest. It ended at the end of
  -- the text, or with the last row of the window.
  pub record Wraps (text : List ℕ) (wrow i d : ℕ) (rows : Map RowViewport) (r : Outcome Scan)
      : Type 0 where
    pub runs : List (List ℕ)
    pub rest : List ℕ
    pub after : Scan
    pub returns : r ≡ ok after
    pub split : text ≡ concat runs ++ rest
    pub placed : after.rows ≡ rows ++ rows_of w runs wrow i d
    pub are_runs : AreRuns w width runs rest
    pub start_fills : after.start_fills ≡ 0
    pub end_fills : last_sum w runs + after.end_fills ≤ width
    pub ends :
        ((rest ≡ []) × (after.wrow + 1 ≡ wrow + length runs) × (after.wrow < height))
        ⊎ ((after.wrow ≡ height) × (wrow + length runs ≡ height))
    pub some_run : 0 < length runs

  -- The rows with one more behind them.
  abbrev pub rows_with : Map RowViewport → ℕ → List ℕ → ℕ → ℕ → Map RowViewport
  rows_with rows wrow run i d = rows ++ (wrow, row_of w run i d) ∷ []

  last_sum_cons :
      (run : List ℕ) (runs : List (List ℕ)) (n : ℕ)
      → 0 < length runs
      → last_sum w runs + n ≤ width
      → last_sum w (run ∷ runs) + n ≤ width
  last_sum_cons run [] n h k = absurd (omega arith)
  last_sum_cons run (a ∷ runs) n h k = k

  -- One more run in front of those of a loop that went on in the next row.
  pub more :
      (text run : List ℕ) (wrow i d : ℕ) (rows : Map RowViewport) {r r' : Outcome Scan}
      → Begins w width 0 run
      → 0 < length run
      → sum w run ≤ width
      → IsFull w width run text
      → r' ≡ r
      → Wraps text (wrow + 1) (i + length run) (d + sum w run) (rows_with rows wrow run i d) r
      → Wraps (run ++ text) wrow i d rows r'
  unfolding rows_of
  more text run wrow i d rows begins pos small full er v = record {
    runs = run ∷ v.runs;
    rest = v.rest;
    after = v.after;
    returns = er ∙ v.returns;
    split = ap (λ t. run ++ t) v.split ∙ sym (append_assoc run (concat v.runs) v.rest);
    placed =
        v.placed
        ∙ append_assoc rows ((wrow, row_of w run i d) ∷ [])
            (rows_of w v.runs (wrow + 1) (i + length run) (d + sum w run));
    are_runs = (begins, pos, small, subst (IsFull w width run) v.split full, v.are_runs);
    start_fills = v.start_fills;
    end_fills = last_sum_cons run v.runs v.after.end_fills v.some_run v.end_fills;
    ends = ground (arith, v.ends);
    some_run = omega arith;
  }

  -- The last run.
  pub last :
      (run rest : List ℕ) (wrow i d : ℕ) (rows : Map RowViewport) (after : Scan) {r : Outcome Scan}
      → Begins w width 0 run
      → 0 < length run
      → IsFull w width run rest
      → r ≡ ok after
      → after.rows ≡ rows_with rows wrow run i d
      → after.start_fills ≡ 0
      → sum w run + after.end_fills ≤ width
      → ((rest ≡ []) × (after.wrow ≡ wrow) × (wrow < height))
        ⊎ ((after.wrow ≡ height) × (wrow + 1 ≡ height))
      → Wraps (run ++ rest) wrow i d rows r
  unfolding rows_of
  last run rest wrow i d rows after begins pos full er ew es ee ends = record {
    runs = run ∷ [];
    rest = rest;
    after = after;
    returns = er;
    split = ap (λ t. t ++ rest) (sym (append-nil run));
    placed = ew;
    are_runs = (begins, pos, omega arith, full, tt);
    start_fills = es;
    end_fills = ee;
    ends = ground (arith, ends);
    some_run = omega arith;
  }
