-- ===== src/Viewport/Scan/Wrap/Rounds.antt =====
-- The rounds of the loop with wrapping, from the middle of a row.
use rsvim.Prelude.{
  ℕ, ◌+◌, ◌-◌, ◌≤◌, ◌<◌, ◌≡◌, leb, if◌then◌else◌, List, [], ◌∷◌, ◌++◌, length, arith, Map,
  KeysBelow, Outcome, ok, ◌>>=◌,
}
use rsvim.Cart.{u16_mod}
use rsvim.Viewport.Rows.{RowViewport}
use rsvim.Viewport.Scan.{
  Scan, Flow, next, stop, start, begin, put_row, sub_usize, scan_chars, wrap_char, wrap_advance,
}
use rsvim.Viewport.Scan.Wrap.{rows_with}
use rsvim.Viewport.Scan.Tiles.{sum, cells, in_row, sum_snoc, advance-in_row, next_row-in_row}

module _ (char_width : ℕ → Outcome ℕ) (w : ℕ → ℕ) (width height len : ℕ) where
  abbrev pub loop : List ℕ → ℕ → Scan → Outcome Scan
  loop = scan_chars (wrap_char char_width width height 0 len)

  abbrev pub then_loop : List ℕ → ℕ → Outcome (Flow Scan) → Outcome Scan
  then_loop cs i r = do f ← r; elim f [ next s ↦ loop cs (i + 1) s | stop s ↦ ok s ]

  -- How the round ends that puts `c` behind `run`.
  abbrev pub advanced : ℕ → ℕ → ℕ → List ℕ → ℕ → Map RowViewport → Outcome (Flow Scan)
  advanced wrow i d run c rows =
      wrap_advance char_width width height 0 len (i + length run) (w c) (in_row w wrow i d run rows)

  abbrev pub below : ℕ → ℕ → ℕ → List ℕ → Map RowViewport → Scan
  below wrow i d run rows =
      in_row w (wrow + 1) (i + length run) (d + sum w run) []
        (rows_with char_width w width height rows wrow run i d)

  module _ (small_width : width < u16_mod) (small_height : height + 1 < u16_mod) where
    pub advanced_end :
        (wrow i d c : ℕ) (run : List ℕ) (rows : Map RowViewport)
        → sum w run + w c ≤ width
        → i + length run + 1 ≡ len
        → advanced wrow i d run c rows
          ≡ ok (stop (put_row (in_row w wrow i d (run ++ c ∷ []) rows)))
    unfolding wrap_advance
    advanced_end wrow i d c run rows small e =
        rw (advance-in_row w wrow i d c run rows (omega arith)) (ground arith)

    pub advanced_inside :
        (wrow i d c : ℕ) (run : List ℕ) (rows : Map RowViewport)
        → sum w run + w c < width
        → i + length run + 1 < len
        → advanced wrow i d run c rows ≡ ok (next (in_row w wrow i d (run ++ c ∷ []) rows))
    unfolding wrap_advance
    advanced_inside wrow i d c run rows small lt =
        rw (advance-in_row w wrow i d c run rows (omega arith)) (ground (arith, sum_snoc w run c))

    advanced_full :
        (wrow i d c : ℕ) (run : List ℕ) (rows : Map RowViewport)
        → KeysBelow wrow rows
        → wrow < height
        → sum w run + w c ≡ width
        → i + length run + 1 < len
        → advanced wrow i d run c rows
          ≡ ok (
              if leb height (wrow + 1)
              then stop (below wrow i d (run ++ c ∷ []) rows)
              else next (below wrow i d (run ++ c ∷ []) rows))
    unfolding wrap_advance
    advanced_full wrow i d c run rows k hr e lt =
        let put = next_row-in_row w wrow i d (run ++ c ∷ []) rows (omega arith) k in
        rw (advance-in_row w wrow i d c run rows (omega arith))
          (rw put (ground (arith, sum_snoc w run c)))

    pub advanced_next :
        (wrow i d c : ℕ) (run : List ℕ) (rows : Map RowViewport)
        → KeysBelow wrow rows
        → wrow + 1 < height
        → sum w run + w c ≡ width
        → i + length run + 1 < len
        → advanced wrow i d run c rows ≡ ok (next (below wrow i d (run ++ c ∷ []) rows))
    advanced_next wrow i d c run rows k hr e lt =
        ground (arith, advanced_full wrow i d c run rows k (omega arith) e lt)

    pub advanced_stop :
        (wrow i d c : ℕ) (run : List ℕ) (rows : Map RowViewport)
        → KeysBelow wrow rows
        → wrow < height
        → ¬ (wrow + 1 < height)
        → sum w run + w c ≡ width
        → i + length run + 1 < len
        → advanced wrow i d run c rows ≡ ok (stop (below wrow i d (run ++ c ∷ []) rows))
    advanced_stop wrow i d c run rows k hr above e lt =
        ground (arith, advanced_full wrow i d c run rows k hr e lt)

    -- A round in which `c` fits behind `run`, and one in which it goes to the row below.
    pub wrap_char_fits :
        (wrow i d c : ℕ) (run : List ℕ) (rows : Map RowViewport)
        → char_width c ≡ ok (w c)
        → sum w run + w c ≤ width
        → wrap_char char_width width height 0 len (i + length run) c (in_row w wrow i d run rows)
          ≡ advanced wrow i d run c rows
    unfolding wrap_char begin
    wrap_char_fits wrow i d c run rows ew small = rw ew (ground arith)

    wrap_char-below :
        (wrow i d c : ℕ) (run : List ℕ) (rows : Map RowViewport)
        → char_width c ≡ ok (w c)
        → KeysBelow wrow rows
        → wrow < height
        → sum w run < width
        → width < sum w run + w c
        → wrap_char char_width width height 0 len (i + length run) c (in_row w wrow i d run rows)
          ≡ (if leb height (wrow + 1)
              then ok (stop (record (below wrow i d run rows) { end_fills = width - sum w run }))
              else wrap_advance char_width width height 0 len
                  (i + length run)
                  (w c)
                  (below wrow i d run rows))
    unfolding wrap_char begin sub_usize
    wrap_char-below wrow i d c run rows ew k hr lt big =
        rw ew (rw (next_row-in_row w wrow i d run rows (omega arith) k) (ground arith))

    pub wrap_char_next :
        (wrow i d c : ℕ) (run : List ℕ) (rows : Map RowViewport)
        → char_width c ≡ ok (w c)
        → KeysBelow wrow rows
        → wrow + 1 < height
        → sum w run < width
        → width < sum w run + w c
        → wrap_char char_width width height 0 len (i + length run) c (in_row w wrow i d run rows)
          ≡ advanced
              (wrow + 1)
              (i + length run)
              (d + sum w run)
              []
              c
              (rows_with char_width w width height rows wrow run i d)
    wrap_char_next wrow i d c run rows ew k below_lt lt big =
        ground (arith, wrap_char-below wrow i d c run rows ew k (omega arith) lt big)

    pub wrap_char_stop :
        (wrow i d c : ℕ) (run : List ℕ) (rows : Map RowViewport)
        → char_width c ≡ ok (w c)
        → KeysBelow wrow rows
        → wrow < height
        → ¬ (wrow + 1 < height)
        → sum w run < width
        → width < sum w run + w c
        → wrap_char char_width width height 0 len (i + length run) c (in_row w wrow i d run rows)
          ≡ ok (stop (record (below wrow i d run rows) { end_fills = width - sum w run }))
    wrap_char_stop wrow i d c run rows ew k hr above lt big =
        ground (arith, wrap_char-below wrow i d c run rows ew k hr lt big)

    pub long : (run : List ℕ) (c : ℕ) → width < sum w run + w c → w c ≤ width → 0 < length run
    unfolding sum
    long [] c big fit = absurd (omega arith)
    long (a ∷ run) c big fit = omega arith

-- The round of the first character starts the row.
pub wrap_char_first :
    (char_width : ℕ → Outcome ℕ) (w : ℕ → ℕ) (width height len c wrow : ℕ)
    → char_width c ≡ ok (w c)
    → wrap_char char_width width height 0 len 0 c (in_row w wrow 0 0 [] [])
      ≡ wrap_char char_width width height 0 len 0 c (start wrow)
unfolding wrap_char begin sub_usize start sum cells
wrap_char_first char_width w width height len c wrow ew = rw ew (ground arith)
