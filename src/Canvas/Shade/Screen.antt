-- ===== src/Canvas/Shade/Screen.antt =====
-- The commands of a diff, run on a terminal that shows the previous frame, make it show the current
-- one.
use rsvim.Prelude.{
  ℕ, ◌+◌, ◌-◌, ◌≤◌, ◌<◌, ◌≡◌, ◌≢◌, refl, ◌∙◌, ap, ◌⊎◌, inl, inr, List, [], ◌∷◌, length, get_elem?,
  some, ok, arith,
}
use mathlib.Core.Path.{subst}
use native.Mathlib.Decide.{dec_lt}
use rsvim.Cart.{U16Pos}
use rsvim.Canvas.Cell.{Crossterm, Cell}
use rsvim.Canvas.Frame
use rsvim.Canvas.Iframe.Valid.{Inside}
use rsvim.Canvas.Iframe.Write.{get_cell_in}
use rsvim.Canvas.Shader.{cursor_move_to, style_print_string}
use rsvim.Canvas.Terminal.{Terminal, exec_all, exec_all-append}
use rsvim.Canvas.Diff.{Canvas, size}
use rsvim.Canvas.Diff.Ready.{IsReady, IsSame, at, run_text}
use rsvim.Canvas.Diff.Runs.{AreRuns, run_commands}
use rsvim.Canvas.Diff.Rows.{AreRowRuns, row_commands}
use rsvim.Canvas.Shade.Text.{glyph_of, IsSingle, length-run_text, run_text-All, get_elem?-run_text}

-- The screen shows the cell of a frame at a position.
abbrev pub ShowsAt : {s : Crossterm} (t : Terminal) → Frame.Frame s → t.Screen → U16Pos → Type 0
ShowsAt {s} t f sc q = (c : Cell s) → Frame.get_cell f q ≡ ok c → t.glyph sc q ≡ glyph_of c.symbol

at_lem : {row : ℕ} (q : U16Pos) → q.y ≡ row → at row q.x ≡ q
at_lem q e = ground arith

module _ {s : Crossterm} (t : Terminal) (can : Canvas s) (r : IsReady can)
    (single : IsSingle t.IsNarrow can.frame.iframe.cells) (wide : (size can).width ≤ t.size.width)
    (high : (size can).height ≤ t.size.height) where
  abbrev Right : t.Screen → U16Pos → Type 0
  Right sc q = ShowsAt t can.frame sc q

  module _ (row a b : ℕ) (hr : row < (size can).height) (hb : b ≤ (size can).width) (ha : a < b)
      (sc : t.Screen) where
    abbrev moved : t.Screen
    moved = t.exec (cursor_move_to (at row a)) sc

    abbrev printed : t.Screen
    printed = t.exec (style_print_string (run_text can row a b)) moved

    cursor-moved : t.cursor moved ≡ at row a
    cursor-moved = t.cursor_move (at row a) sc (omega arith) (omega arith)

    print_fits : (t.cursor moved).x + length (run_text can row a b) ≤ t.size.width
    print_fits =
        rw cursor-moved
          (omega (arith, length-run_text t.IsNarrow can row a b r single hr hb (omega arith)))

    row_fits : (t.cursor moved).y < t.size.height
    row_fits = rw cursor-moved (omega arith)

    narrow : (j g : ℕ) → get_elem? (run_text can row a b) j ≡ some g → t.IsNarrow g
    narrow = run_text-All t.IsNarrow can row a b r single hr hb (omega arith)

    run_at : (i : ℕ) → i < b - a → Right printed (at row (a + i))
    unfolding Frame.get_cell
    run_at i lt c g =
        let (c', e, g') = get_cell_in can.frame.iframe (at row (a + i)) r.frame (omega arith, hr) in
        let text =
          get_elem?-run_text t.IsNarrow can row a b r single hr hb (omega arith) i lt c' e in
        let same : c' ≡ c = ground (arith, g, g') in
        rw cursor-moved at
          (t.print_in (run_text can row a b) moved i narrow row_fits print_fits text)
        ∙ ap (λ (x : Cell s). glyph_of x.symbol) same

    -- A run brings its columns to the current frame,
    run_in : (q : U16Pos) → q.y ≡ row → a ≤ q.x → q.x < b → Right printed q
    run_in q ey low lt =
        let eq : at row (a + (q.x - a)) ≡ q = ground arith in
        subst (Right printed) eq (run_at (q.x - a) (omega arith))

    -- and leaves the rest of the screen.
    run_out : (q : U16Pos) → (q.y ≢ row) ⊎ (q.x < a) ⊎ (b ≤ q.x) → t.glyph printed q ≡ t.glyph sc q
    run_out q away =
        let len = length-run_text t.IsNarrow can row a b r single hr hb (omega arith) in
        t.print_out (run_text can row a b) moved q narrow row_fits print_fits
          (rw cursor-moved (ground (arith, away, len)))
        ∙ t.glyph_quiet (cursor_move_to (at row a)) sc q tt

  module _ (row : ℕ) (hr : row < (size can).height) where
    runs_out :
        (runs : List (ℕ × ℕ)) (col : ℕ) (sc : t.Screen) (q : U16Pos)
        → AreRuns can row col runs
        → (q.y ≢ row) ⊎ (q.x < col)
        → t.glyph (exec_all t (run_commands can row runs) sc) q ≡ t.glyph sc q
    unfolding exec_all
    runs_out [] col sc q are away = refl
    runs_out ((a, b) ∷ runs) col sc q (low, pos, hb, before, changed, last, rest) away =
        runs_out runs b (printed row a b hr hb pos sc) q rest (ground (arith, away))
        ∙ run_out row a b hr hb pos sc q (ground (arith, away))

    -- After the commands of a row, every column that was right or has changed is right.
    runs_in :
        (runs : List (ℕ × ℕ)) (col : ℕ) (sc : t.Screen) (q : U16Pos)
        → AreRuns can row col runs
        → q.y ≡ row
        → col ≤ q.x
        → q.x < (size can).width
        → (IsSame can q → Right sc q)
        → Right (exec_all t (run_commands can row runs) sc) q
    unfolding exec_all
    runs_in [] col sc q are ey low lt right =
        right (subst (IsSame can) (at_lem q ey) (are q.x low lt))
    runs_in ((a, b) ∷ runs) col sc q (la, pos, hb, before, changed, last, rest) ey low lt right =
        elim (dec_lt q.x a) [
          | yes left ↦ λ c g.
              runs_out runs b (printed row a b hr hb pos sc) q rest (inr (omega arith))
              ∙ run_out row a b hr hb pos sc q (inr (inl left))
              ∙ right (subst (IsSame can) (at_lem q ey) (before q.x low left)) c g
          | no right_of_a ↦ elim (dec_lt q.x b) [
            | yes within ↦ λ c g.
                runs_out runs b (printed row a b hr hb pos sc) q rest (inr within)
                ∙ run_in row a b hr hb pos sc q ey (omega arith) within c g
            | no beyond ↦
                runs_in runs b (printed row a b hr hb pos sc) q rest ey (omega arith) lt
                  (λ same c g.
                    run_out row a b hr hb pos sc q (inr (inr (omega arith))) ∙ right same c g)
          ]
        ]

  AreRowRuns-le : (y : ℕ) (l : List (List (ℕ × ℕ))) → AreRowRuns can y l → y ≤ (size can).height
  AreRowRuns-le y [] e = omega arith
  AreRowRuns-le y (x ∷ l) (a, e) = omega (arith, AreRowRuns-le (y + 1) l e)

  rows_out :
      (rows : List (List (ℕ × ℕ))) (row : ℕ) (sc : t.Screen) (q : U16Pos)
      → AreRowRuns can row rows
      → q.y < row
      → row ≤ (size can).height
      → t.glyph (exec_all t (row_commands can row rows) sc) q ≡ t.glyph sc q
  unfolding exec_all
  rows_out [] row sc q are above h = refl
  rows_out (runs ∷ rows) row sc q (are, ares) above h = elim (dec_lt row (size can).height) [
    | yes lt ↦
        rw (exec_all-append t (run_commands can row runs) (row_commands can (row + 1) rows) sc) (
          rows_out rows (row + 1) _ q ares (omega arith) (omega arith)
          ∙ runs_out row lt runs 0 sc q are (inl (omega arith)))
    | no out ↦ absurd (omega (arith, AreRowRuns-le (row + 1) rows ares))
  ]

  -- After the commands of all rows from `row` on, every position that was right or has changed is
  -- right.
  pub rows_in :
      (rows : List (List (ℕ × ℕ))) (row : ℕ) (sc : t.Screen) (q : U16Pos)
      → AreRowRuns can row rows
      → row ≤ q.y
      → Inside can.frame.iframe q
      → (IsSame can q → Right sc q)
      → Right (exec_all t (row_commands can row rows) sc) q
  unfolding exec_all
  rows_in [] row sc q are below inside right = absurd (omega arith)
  rows_in (runs ∷ rows) row sc q (are, ares) below inside right = elim (dec_lt row q.y) [
    | yes later ↦
        rw (exec_all-append t (run_commands can row runs) (row_commands can (row + 1) rows) sc) (
          rows_in rows (row + 1) _ q ares (omega arith) inside (λ same c g.
            runs_out row (omega arith) runs 0 sc q are (inl (omega arith)) ∙ right same c g))
    | no here ↦
        let ey : q.y ≡ row = omega arith in
        λ c g.
          rw (exec_all-append t (run_commands can row runs) (row_commands can (row + 1) rows) sc) (
            rows_out rows (row + 1) _ q ares (omega arith) (omega arith)
            ∙ runs_in row (omega arith) runs 0 sc q are ey (omega arith) inside.0 right c g)
  ]
