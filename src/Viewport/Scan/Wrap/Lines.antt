-- ===== src/Viewport/Scan/Wrap/Lines.antt =====
-- The loop with wrapping, over the whole line.
use rsvim.Prelude.{
  KeysBelow-snoc, ℕ, ◌+◌, ◌-◌, ◌≤◌, ◌<◌, ◌≡◌, refl, ◌∙◌, ap, inl, inr, List, [], ◌∷◌, ◌++◌, length,
  arith, Map, KeysBelow, Outcome, ok,
}
use mathlib.Core.List.{append_assoc}
use mathlib.Core.Path.{subst}
use native.Mathlib.Decide.{dec_lt}
use rsvim.Cart.{u16_mod}
use rsvim.Viewport.Rows.{RowViewport}
use rsvim.Viewport.Scan.{Scan, scan_chars, wrap_line}
use rsvim.Viewport.Scan.Wrap.{Wraps, rows_with, more, last}
use rsvim.Viewport.Scan.Wrap.Rounds.{
  loop, then_loop, advanced, below, advanced_end, advanced_inside, advanced_next, advanced_stop,
  wrap_char_fits, wrap_char_next, wrap_char_stop, long, wrap_char_first,
}
use rsvim.Viewport.Scan.Tiles.{
  sum, row_of, IsFull, Begins, Begins-snoc, AllWide, in_row, sum_snoc, length_snoc, put_row-in_row,
}

module _ (char_width : ℕ → Outcome ℕ) (w : ℕ → ℕ) (width height len : ℕ) (pos_width : 0 < width)
    (small_width : width < u16_mod) (small_height : height + 1 < u16_mod) where
  -- What the loop over `cs` does from the middle of any row.
  abbrev FillsRows : List ℕ → Type 0
  FillsRows cs =
      (wrow i d : ℕ) (run : List ℕ) (rows : Map RowViewport)
      → KeysBelow wrow rows
      → wrow < height
      → Begins w width 0 run
      → sum w run < width
      → i + length run + length cs ≡ len
      → 0 < length cs
      → Wraps char_width w width height (run ++ cs) wrow i d rows
          (loop char_width w width height len cs (i + length run) (in_row w wrow i d run rows))

  shifted :
      (run : List ℕ) (c : ℕ) (cs : List ℕ) {wrow i d : ℕ} {rows : Map RowViewport}
      {r : Outcome Scan}
      → Wraps char_width w width height ((run ++ c ∷ []) ++ cs) wrow i d rows r
      → Wraps char_width w width height (run ++ c ∷ cs) wrow i d rows r
  shifted run c cs {wrow} {i} {d} {rows} {r} v =
      subst (λ t. Wraps char_width w width height t wrow i d rows r) (append_assoc run (c ∷ []) cs)
        v

  -- The rounds that end a run at `c`, or go on behind it.
  then_advanced :
      (c : ℕ) (cs : List ℕ) (wrow i d : ℕ) (run : List ℕ) (rows : Map RowViewport)
      → FillsRows cs
      → KeysBelow wrow rows
      → wrow < height
      → Begins w width 0 (run ++ c ∷ [])
      → sum w run + w c ≤ width
      → i + length run + length (c ∷ cs) ≡ len
      → Wraps char_width w width height (run ++ c ∷ cs) wrow i d rows (
          then_loop char_width w width height len cs
            (i + length run)
            (advanced char_width w width height len wrow i d run c rows))
  unfolding sum
  then_advanced c [] wrow i d run rows rest k hr bs small e =
      let run' = run ++ c ∷ [] in
      let s1 = in_row w wrow i d run' rows in
      let put = put_row-in_row w wrow i d run' rows k in
      shifted run c [] (
        last char_width w width height run' [] wrow i d rows
          (record s1 { rows = rows_with char_width w width height rows wrow run' i d }) bs
          (omega (arith, length_snoc w run c)) tt
          (rw
            (advanced_end char_width w width height len small_width small_height wrow i d c run rows
              small (omega arith))
            (ap ok put))
          refl refl (omega (arith, sum_snoc w run c)) (inl (refl, refl, hr)))
  then_advanced c (c' ∷ cs) wrow i d run rows rest k hr bs small e =
      let run' = run ++ c ∷ [] in
      let rows' = rows_with char_width w width height rows wrow run' i d in
      let at : i + length run' ≡ i + length run + 1 = omega (arith, length_snoc w run c) in
      let full : sum w run + w c ≡ width → IsFull w width run' (c' ∷ cs) =
        λ en. inl (sum_snoc w run c ∙ en) in
      elim (dec_lt (sum w run + w c) width) [
        | yes lt ↦
            rw
              (advanced_inside char_width w width height len small_width small_height wrow i d c run
                rows lt (omega arith))
              (shifted run c (c' ∷ cs) (
                subst
                  (λ j.
                    Wraps char_width w width height (run' ++ c' ∷ cs) wrow i d rows (
                      loop char_width w width height len (c' ∷ cs) j (in_row w wrow i d run' rows)))
                  at
                  (rest wrow i d run' rows k hr bs (omega (arith, sum_snoc w run c))
                    (omega (arith, at)) (omega arith))))
        | no ge ↦ elim (dec_lt (wrow + 1) height) [
          | yes below_lt ↦
              rw
                (advanced_next char_width w width height len small_width small_height wrow i d c run
                  rows k below_lt (omega arith) (omega arith))
                (shifted run c (c' ∷ cs) (
                  more char_width w width height (c' ∷ cs) run' wrow i d rows bs
                    (omega (arith, length_snoc w run c)) (omega (arith, sum_snoc w run c))
                    (full (omega arith))
                    (ap
                      (λ j.
                        loop char_width w width height len (c' ∷ cs) j
                          (below char_width w width height len wrow i d run' rows))
                      (omega (arith, at)))
                    (rest (wrow + 1) (i + length run') (d + sum w run') [] rows'
                      (KeysBelow-snoc wrow (row_of w run' i d) rows k) below_lt tt pos_width
                      (omega (arith, at)) (omega arith))))
          | no above ↦ shifted run c (c' ∷ cs) (
              last char_width w width height run' (c' ∷ cs) wrow i d rows
                (below char_width w width height len wrow i d run' rows) bs
                (omega (arith, length_snoc w run c)) (full (omega arith))
                (rw
                  (advanced_stop char_width w width height len small_width small_height wrow i d c
                    run rows k hr above (omega arith) (omega arith))
                  refl)
                refl refl (omega (arith, sum_snoc w run c)) (inr (omega arith, omega arith)))
        ]
      ]

  fills : (cs : List ℕ) → AllWide w char_width width cs → FillsRows cs
  unfolding scan_chars sum
  fills [] all wrow i d run rows k hr bs lt e pos = absurd (omega arith)
  fills (c ∷ cs) ((ew, fit), all) wrow i d run rows k hr bs lt e pos =
      elim (dec_lt width (sum w run + w c)) [
        | no small ↦
            rw
              (wrap_char_fits char_width w width height len small_width small_height wrow i d c run
                rows ew (omega arith))
              (then_advanced c cs wrow i d run rows (fills cs all) k hr
                (Begins-snoc w width 0 run c bs (omega arith)) (omega arith) (omega arith))
        | yes big ↦
            let rows' = rows_with char_width w width height rows wrow run i d in
            let pos_run : 0 < length run =
              long char_width w width height len small_width small_height run c big fit in
            elim (dec_lt (wrow + 1) height) [
              | yes below_lt ↦
                  more char_width w width height (c ∷ cs) run wrow i d rows bs pos_run (omega arith)
                    (inr big)
                    (ap (then_loop char_width w width height len cs (i + length run)) (
                        wrap_char_next char_width w width height len small_width small_height wrow i
                          d c run rows ew k below_lt lt big)
                      ∙ ap
                          (λ j. then_loop char_width w width height len cs j (
                            advanced char_width w width height len (wrow + 1) (i + length run)
                              (d + sum w run) [] c rows'))
                          (omega arith))
                    (then_advanced c cs (wrow + 1) (i + length run) (d + sum w run) [] rows'
                      (fills cs all) (KeysBelow-snoc wrow (row_of w run i d) rows k) below_lt
                      (pos_width, tt) (omega arith) (omega arith))
              | no above ↦
                  last char_width w width height run (c ∷ cs) wrow i d rows
                    (record (below char_width w width height len wrow i d run rows) {
                      end_fills = width - sum w run;
                    })
                    bs pos_run (inr big)
                    (rw
                      (wrap_char_stop char_width w width height len small_width small_height wrow i
                        d c run rows ew k hr above lt big)
                      refl)
                    refl refl (omega arith) (inr (omega arith, omega arith))
            ]
      ]

-- A nonempty line, shown from its first column, whose characters are no wider than the window, from a row
-- of the window on, in a window of fewer than 65535 rows, and at least one and fewer than 65536 columns: the
-- loop with wrapping returns, without a panic. The line is split into runs and a rest; each run is a row of
-- its own, in order, from the row `wrow` on, that holds its characters with their columns; a run ends
-- where it is full or the next character does not fit, and only there; and the loop ends with the line
-- or with the last row of the window.
pub wrap_line_lem :
    (char_width : ℕ → Outcome ℕ) (w : ℕ → ℕ) (width height : ℕ) (line : List ℕ) (wrow : ℕ)
    → 0 < width
    → width < u16_mod
    → height + 1 < u16_mod
    → wrow < height
    → 0 < length line
    → AllWide w char_width width line
    → Wraps char_width w width height line wrow 0 0 []
        (wrap_line char_width width height 0 line wrow)
unfolding wrap_line scan_chars sum
wrap_line_lem char_width w width height [] wrow pos_width small_width small_height hr pos all =
    absurd (omega arith)
wrap_line_lem char_width w width height (c ∷ cs) wrow pos_width small_width small_height hr pos
      all =
    let len = length (c ∷ cs) in
    let first = wrap_char_first char_width w width height len c wrow all.0.0 in
    subst (Wraps char_width w width height (c ∷ cs) wrow 0 0 [])
      (ap (then_loop char_width w width height len cs 0) first)
      (fills char_width w width height len pos_width small_width small_height (c ∷ cs) all wrow 0 0
        [] [] tt hr tt pos_width (omega arith) pos)
