-- ===== src/Window/Content/Rows.antt =====
-- The drawing of a row and of the rows of a line.
use rsvim.Prelude.{
  ℕ, ◌+◌, ◌-◌, ◌≤◌, ◌<◌, ◌≡◌, refl, ◌==◌, Bool, true, false, ltb, List, [], ◌∷◌, ◌++◌, length,
  length-append, drop, some, Outcome, ok, assert, arith,
}
use rsvim.Cart.{U16Pos, as_u16, add_u16}
use rsvim.Canvas.Cell.{Crossterm}
use rsvim.Canvas.Cell
use rsvim.Canvas.Frame.{Frame}
use rsvim.Buf.Rope.{Texts}
use rsvim.Buf.Buffer.{FileTypes, Buffer, char_width, char_symbol}
use rsvim.Buf.Symbols.{char_symbol-Prints}
use rsvim.Viewport.Rows.{LineViewport}
use rsvim.Viewport.Scan.{sub_usize}
use rsvim.Viewport.Scan.Tiles.{sum, row_of, Begins, AllWide}
use rsvim.Window.Content.{Draw, draw_chars, draw_content, fills_of, draw_row}
use rsvim.Window.Content.Region.{
  InFrame, Keeps, Keeps-refl, Keeps-trans, Keeps-InFrame, set_cell-Keeps, put_some_fills-Keeps,
}

drop_prefix : {A : Type 0} (pre rest : List A) → drop (length pre) (pre ++ rest) ≡ rest
drop_prefix [] rest = refl
drop_prefix (a ∷ pre) rest = drop_prefix pre rest

next_col :
    {s : Crossterm} (upos : U16Pos) (width height : ℕ) (fr : Frame s) (col n : ℕ)
    → InFrame upos width height fr
    → col + n ≤ width
    → add_u16 col (as_u16 n) ≡ ok (col + n)
unfolding add_u16
next_col upos width height fr col n h fit = ground (arith, h.right, h.small_width)

-- No column to fill.
fills_of_zero : (here : Bool) (count : ℕ) → fills_of here 0 count ≡ ok (0, count)
unfolding fills_of
fills_of_zero true count = refl
fills_of_zero false count = refl

module _ {s : Crossterm} (upos : U16Pos) (width height : ℕ) {x : Texts} {f : FileTypes}
    (b : Buffer x f) (w : ℕ → ℕ) where
  draw_chars-Keeps :
      (run rest : List ℕ) (row col total : ℕ) (fr : Frame s)
      → InFrame upos width height fr
      → AllWide w (char_width b) width run
      → Begins w width col run
      → col + sum w run ≤ width
      → row < height
      → (fr' : Frame s) × (draw_chars upos
            (char_symbol b)
            (length run)
            (run ++ rest)
            row
            col
            total
            fr
          ≡ ok (fr', (col + sum w run, total + sum w run)))
        × Keeps upos width height fr fr'
  unfolding draw_chars sum
  draw_chars-Keeps [] rest row col total fr h wide begins fit hr =
      (fr, ground arith, Keeps-refl upos width height fr h)
  draw_chars-Keeps (c ∷ cs) rest row col total fr h ((ew, wc), wide) (lt, begins) fit hr =
      let p = char_symbol-Prints b c (w c) ew in
      let (pos, ep, r, er, k) =
        set_cell-Keeps upos width height fr col row (Cell.with_symbol p.symbol) h lt hr in
      let (fr', e, k') =
        draw_chars-Keeps cs rest row (col + w c) (total + w c) r.0
          (Keeps-InFrame upos width height fr r.0 h k) wide begins (omega arith) hr in
      (
        fr',
        rw p.returns (
            rw ep (
              rw er (
                rw (next_col upos width height fr col (w c) h (omega arith))
                  (rw e (ground arith))))),
        Keeps-trans upos width height fr r.0 fr' k k',
      )

  -- The characters of a row.
  draw_content-Keeps :
      (line pre run rest : List ℕ) (d row : ℕ) (fr : Frame s)
      → line ≡ pre ++ (run ++ rest)
      → InFrame upos width height fr
      → AllWide w (char_width b) width run
      → Begins w width 0 run
      → sum w run ≤ width
      → 0 < length run
      → row < height
      → (fr' : Frame s) × (draw_content upos b width height line
            (row_of w run (length pre) d)
            row
            0
            fr
          ≡ ok (fr', 0 + sum w run))
        × Keeps upos width height fr fr'
  unfolding draw_content sub_usize
  draw_content-Keeps line pre run rest d row fr el h wide begins fit pos hr =
      let (fr', e, k) = draw_chars-Keeps run rest row 0 0 fr h wide begins (omega arith) hr in
      let chars : x.get_chars_at line (length pre) ≡ some (run ++ rest) = rw el (
        ground (
          arith,
          x.get_chars_at_lem (pre ++ (run ++ rest)) (length pre),
          length-append pre (run ++ rest),
          drop_prefix pre (run ++ rest),
        )) in
      let n : length pre + length run - length pre ≡ length run = omega arith in
      (fr', rw (chars, n) (rw e (ground (arith, pos))), k)

  -- The columns of a row that are taken, and that the row ends where the window does.
  occupied :
      (fr : Frame s) (n d ef : ℕ)
      → InFrame upos width height fr
      → n + ef ≤ width
      → (sub_usize (d + n) d ≡ ok n)
        × (add_u16 (as_u16 n) 0 ≡ ok n)
        × (add_u16 n ef ≡ ok (n + ef))
        × (assert (width == 0 + n + (width - (n + ef)) + ef) ≡ ok tt)
  unfolding sub_usize add_u16
  occupied fr n d ef h fit = (
    ground arith,
    ground (arith, h.right, h.small_width),
    ground (arith, h.right, h.small_width),
    ground arith,
  )

  next_row :
      (fr : Frame s) (row : ℕ)
      → InFrame upos width height fr
      → row < height
      → add_u16 row 1 ≡ ok (row + 1)
  unfolding add_u16
  next_row fr row h hr = ground (arith, h.below, h.small_height)

  -- The row was drawn: nothing but the rectangle changed.
  pub record DrawsRow (st : Draw s) (row count : ℕ) (r : Outcome (Draw s)) : Type 0 where
    pub after : Draw s
    pub returns : r ≡ ok after
    pub row_idx : after.row_idx ≡ row
    pub end_fills_count : after.end_fills_count ≡ count
    pub keeps : Keeps upos width height st.frame after.frame

  pub draw_row-DrawsRow :
      (line pre run rest : List ℕ) (v : LineViewport) (first last d ef count : ℕ) (st : Draw s)
      → line ≡ pre ++ (run ++ rest)
      → InFrame upos width height st.frame
      → AllWide w (char_width b) width run
      → Begins w width 0 run
      → 0 < length run
      → sum w run + ef ≤ width
      → st.row_idx < height
      → v.start_filled_columns ≡ 0
      → fills_of (st.row_idx == last) v.end_filled_columns st.end_fills_count ≡ ok (ef, count)
      → DrawsRow st (st.row_idx + 1) count (
          draw_row upos b width height line v first last st.row_idx
            (row_of w run (length pre) d)
            st)
  unfolding draw_row
  draw_row-DrawsRow line pre run rest v first last d ef count st el h wide begins pos fit hr es ee =
      let row = st.row_idx in
      let n = sum w run in
      let (here, inside) = row_tests row hr in
      let (sub, with_start, occ, full) = occupied st.frame n d ef h fit in
      let (f1, e1, k1) =
        put_some_fills-Keeps upos width height st.frame b'>' 0 0 row h (omega arith) hr in
      let h1 = Keeps-InFrame upos width height st.frame f1 h k1 in
      let (f2, e2, k2) =
        draw_content-Keeps line pre run rest d row f1 el h1 wide begins (omega arith) pos hr in
      let h2 = Keeps-InFrame upos width height f1 f2 h1 k2 in
      let (f3, e3, k3) =
        put_some_fills-Keeps upos width height f2 b' ' (width - (n + ef)) (0 + n) row h2
          (omega arith) hr in
      let h3 = Keeps-InFrame upos width height f2 f3 h2 k3 in
      let (f4, e4, k4) =
        put_some_fills-Keeps upos width height f3 b'<' ef (0 + n + (width - (n + ef))) row h3
          (omega arith) hr in
      record {
        after = record {
          frame = f4;
          row_idx = row + 1;
          start_fills_count = st.start_fills_count;
          end_fills_count = count;
        };
        returns =
            rw (here, inside, es, fills_of_zero (row == first) st.start_fills_count, ee)
              (rw e1 (
                rw e2 (
                  rw (sub, with_start, occ)
                    (rw e3 (rw e4 (rw (full, next_row st.frame row h hr) refl))))));
        row_idx = refl;
        end_fills_count = refl;
        keeps = Keeps-trans upos width height st.frame f1 f4 k1 (
            Keeps-trans upos width height f1 f2 f4 k2
              (Keeps-trans upos width height f2 f3 f4 k3 k4));
      }
    where
      row_tests :
          (row : ℕ)
          → row < height
          → (assert (row == row) ≡ ok tt) × (assert (ltb row height) ≡ ok tt)
      row_tests row hr = (ground arith, ground arith)
