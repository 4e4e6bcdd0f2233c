-- ===== src/Window/Content/Line.antt =====
-- The drawing of all rows of a line.
use rsvim.Prelude.{
  ℕ, zero, suc, ◌+◌, ◌≤◌, ◌<◌, ◌≡◌, refl, sym, ◌∙◌, ap, ◌==◌, List, [], ◌∷◌, ◌++◌, length,
  length-append, some, Outcome, ok, last_key_value, arith,
}
use mathlib.Core.List.{append-nil, append_assoc}
use mathlib.Core.Path.{subst}
use rsvim.Cart.{U16Pos, u16_mod}
use rsvim.Canvas.Cell.{Crossterm}
use rsvim.Buf.Rope.{concat, Texts}
use rsvim.Buf.Buffer.{FileTypes, Buffer, char_width}
use rsvim.Viewport.Rows.{RowViewport, LineViewport}
use rsvim.Viewport.Scan.Tiles.{sum, row_of, rows_of, AllWide, last_sum}
use rsvim.Viewport.Sync.Lays.{Fit}
use rsvim.Window.Content.{Draw, fills_of, draw_row, draw_rows}
use rsvim.Window.Content.Region.{InFrame, Keeps, Keeps-trans, Keeps-InFrame}
use rsvim.Window.Content.Rows.{draw_row-DrawsRow}

pub AllWide-append :
    (w : ℕ → ℕ) (char_width : ℕ → Outcome ℕ) (width : ℕ) (pre rest : List ℕ)
    → AllWide w char_width width (pre ++ rest)
    → AllWide w char_width width pre × AllWide w char_width width rest
AllWide-append w char_width width [] rest h = (tt, h)
AllWide-append w char_width width (c ∷ pre) rest (hc, h) =
    let (hp, hr) = AllWide-append w char_width width pre rest h in ((hc, hp), hr)

fills_of_other : (row last filled : ℕ) → row < last → fills_of (row == last) filled 0 ≡ ok (0, 0)
unfolding fills_of
fills_of_other row last filled h = ground arith

fills_of_last :
    (row last filled : ℕ)
    → row ≡ last
    → filled < u16_mod
    → (count : ℕ) × (fills_of (row == last) filled 0 ≡ ok (filled, count))
unfolding fills_of
fills_of_last row last zero e h = (0, ground arith)
fills_of_last row last (suc n) e h = (1, ground arith)

pub last_row :
    (w : ℕ → ℕ) (run : List ℕ) (runs : List (List ℕ)) (r i d : ℕ)
    → (v : RowViewport) × (last_key_value (rows_of w (run ∷ runs) r i d)
        ≡ some (r + length runs, v))
unfolding rows_of
last_row w run [] r i d = (row_of w run i d, ground arith)
last_row w run (run' ∷ runs) r i d =
    let (v, e) = last_row w run' runs (r + 1) (i + length run) (d + sum w run) in
    (v, ground (arith, e))

module _ {s : Crossterm} (upos : U16Pos) (width height : ℕ) {x : Texts} {f : FileTypes}
    (b : Buffer x f) (w : ℕ → ℕ) where
  pub draw_rows-Keeps :
      (line pre rest : List ℕ) (run : List ℕ) (runs : List (List ℕ)) (v : LineViewport)
      (first last r i d : ℕ) (st : Draw s)
      → line ≡ pre ++ (concat (run ∷ runs) ++ rest)
      → st.row_idx ≡ r
      → length pre ≡ i
      → last ≡ r + length runs
      → InFrame upos width height st.frame
      → AllWide w (char_width b) width (concat (run ∷ runs) ++ rest)
      → Fit w width (run ∷ runs)
      → last_sum w (run ∷ runs) + v.end_filled_columns ≤ width
      → last < height
      → v.start_filled_columns ≡ 0
      → st.end_fills_count ≡ 0
      → (st' : Draw s) × (draw_rows upos b width height line v first last
            (rows_of w (run ∷ runs) r i d)
            st
          ≡ ok st')
        × (st'.row_idx ≡ r + length (run ∷ runs))
        × Keeps upos width height st.frame st'.frame
  unfolding draw_rows rows_of
  draw_rows-Keeps line pre rest run [] v first last r i d st split er ei el h wide
        (begins, pos, small, fit) ends hr es ec =
      let wide_run = AllWide-append w (char_width b) width (run ++ []) rest wide in
      let (count, ee) =
        fills_of_last st.row_idx last v.end_filled_columns (omega (arith, er, el))
          (omega (arith, h.right, h.small_width)) in
      let dr =
        draw_row-DrawsRow upos width height b w line pre run rest v first last d
          v.end_filled_columns count st (split ∙ ap (λ t. pre ++ (t ++ rest)) (append-nil run)) h
          (AllWide-append w (char_width b) width run [] wide_run.0).0 begins pos ends
          (omega (arith, er, el)) es (rw ec ee) in
      let e : draw_row upos b width height line v first last r (row_of w run i d) st ≡ ok dr.after =
        rw (sym er, sym ei) dr.returns in
      (dr.after, rw e refl, ground (arith, dr.row_idx, er), dr.keeps)
  draw_rows-Keeps line pre rest run (run' ∷ runs) v first last r i d st split er ei el h wide
        (begins, pos, small, fit) ends hr es ec =
      let tail = concat (run' ∷ runs) in
      let assoc : (run ++ tail) ++ rest ≡ run ++ (tail ++ rest) = append_assoc run tail rest in
      let wide_run =
        AllWide-append w (char_width b) width run (tail ++ rest)
          (subst (AllWide w (char_width b) width) assoc wide) in
      let dr =
        draw_row-DrawsRow upos width height b w line pre run (tail ++ rest) v first last d 0 0 st
          (split ∙ ap (λ t. pre ++ t) assoc) h wide_run.0 begins pos (omega arith)
          (omega (arith, er, el)) es
          (rw ec (fills_of_other st.row_idx last v.end_filled_columns (omega (arith, er, el)))) in
      let e : draw_row upos b width height line v first last r (row_of w run i d) st ≡ ok dr.after =
        rw (sym er, sym ei) dr.returns in
      let (st', e', er', k) =
        draw_rows-Keeps line (pre ++ run) rest run' runs v first last (r + 1) (i + length run)
          (d + sum w run) dr.after
          (split ∙ ap (λ t. pre ++ t) assoc ∙ sym (append_assoc pre run (tail ++ rest)))
          (dr.row_idx ∙ ap (λ k. k + 1) er) (length-append pre run ∙ ap (λ k. k + length run) ei)
          (omega (arith, el)) (Keeps-InFrame upos width height st.frame dr.after.frame h dr.keeps)
          wide_run.1 fit ends hr es dr.end_fills_count in
      (
        st',
        rw e e',
        ground (arith, er'),
        Keeps-trans upos width height st.frame dr.after.frame st'.frame dr.keeps k,
      )
