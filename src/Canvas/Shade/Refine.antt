-- ===== src/Canvas/Shade/Refine.antt =====
-- `shade` brings a terminal that shows the previous frame to the current one.
use rsvim.Prelude.{
  ◌≤◌, ◌<◌, ◌≡◌, refl, sym, ◌∙◌, ap, ◌⊎◌, inl, inr, Bool, true, false, List, [], ◌∷◌, ◌++◌, Outcome,
  ok, arith,
}
use rsvim.Cart.{U16Pos, u16_mod}
use rsvim.Canvas.Cell.{Crossterm}
use rsvim.Canvas.Frame
use rsvim.Canvas.Iframe.{zero_sized, reset_dirty_rows}
use rsvim.Canvas.Iframe.Valid.{Inside, reset_dirty_rows-IsValid}
use rsvim.Canvas.Draw.{reset_dirty_rows-Tracks}
use rsvim.Canvas.Shader.{Shader, ShaderCommand, cursor_move_to}
use rsvim.Canvas.Terminal.{Terminal, IsQuiet, IsStill, exec_all, exec_all-append}
use rsvim.Canvas.Diff.{Canvas, size, brute_force_diff}
use rsvim.Canvas.Diff.Ready.{IsReady}
use rsvim.Canvas.Diff.Rows.{
  IsTracked, row_commands, brute_force_diff-runs, dirty_marks_diff-eq-brute_force_diff,
}
use rsvim.Canvas.Shade.{push_if, shade, shade_cells, shade_cursor, shade_done}
use rsvim.Canvas.Shade.Text.{IsSingle}
use rsvim.Canvas.Shade.Screen.{ShowsAt, rows_in}

-- A command that prints nothing, and leaves the cursor or moves it to `pos`.
abbrev IsSteady : U16Pos → ShaderCommand → Type 0
IsSteady pos c = IsQuiet c × (IsStill c ⊎ (c ≡ cursor_move_to pos))

abbrev AllSteady : U16Pos → List ShaderCommand → Type 0
AllSteady pos [] = Unit
AllSteady pos (c ∷ cs) = IsSteady pos c × AllSteady pos cs

AllSteady-push_if :
    (pos : U16Pos) (b : Bool) (c : ShaderCommand) (cs : List ShaderCommand)
    → IsSteady pos c
    → AllSteady pos cs
    → AllSteady pos (push_if b c cs)
AllSteady-push_if pos false c cs h all = all
AllSteady-push_if pos true c [] h all = (h, tt)
AllSteady-push_if pos true c (d ∷ ds) h (first, rest) =
    (first, AllSteady-push_if pos true c ds h rest)

module _ {s : Crossterm} where
  -- The commands for the cursor print nothing, and move it to its place only.
  shade_cursor-AllSteady : (can : Canvas s) → AllSteady can.frame.cursor.pos (shade_cursor can)
  unfolding shade_cursor
  shade_cursor-AllSteady can = ground arith

  -- On ready and tracked frames the commands for the cells are those of the row runs.
  shade_cells_lem :
      (can : Canvas s)
      → IsReady can
      → IsTracked can
      → (size can).height < u16_mod
      → shade_cells can ≡ brute_force_diff can
  unfolding shade_cells
  shade_cells_lem can r tr hh =
      ground (arith, r.same_size, dirty_marks_diff-eq-brute_force_diff can r hh tr)

  shade_done-IsReady : (can : Canvas s) → IsReady can → IsReady (shade_done can)
  unfolding shade_done Frame.reset_dirty_rows reset_dirty_rows
  shade_done-IsReady can r = record {
    frame = reset_dirty_rows-IsValid can.frame.iframe r.frame;
    prev_frame = r.frame;
    same_size = refl;
  }

  shade_done-IsTracked : (can : Canvas s) → IsTracked (shade_done can)
  unfolding shade_done Frame.reset_dirty_rows Frame.get_cell
  shade_done-IsTracked can = reset_dirty_rows-Tracks can.frame.iframe

module _ (t : Terminal) (pos : U16Pos) (col_fits : pos.x < t.size.width)
    (row_fits : pos.y < t.size.height) where
  exec_all-cursor :
      (cs : List ShaderCommand) (sc : t.Screen)
      → AllSteady pos cs
      → t.cursor sc ≡ pos
      → t.cursor (exec_all t cs sc) ≡ pos
  unfolding exec_all
  exec_all-cursor [] sc all e = e
  exec_all-cursor (c ∷ cs) sc ((quiet, inl still), rest) e =
      exec_all-cursor cs (t.exec c sc) rest (t.cursor_still c sc still ∙ e)
  exec_all-cursor (c ∷ cs) sc ((quiet, inr move), rest) e =
      exec_all-cursor cs (t.exec c sc) rest (rw move (t.cursor_move pos sc col_fits row_fits))

  exec_all-glyph :
      (cs : List ShaderCommand) (sc : t.Screen) (q : U16Pos)
      → AllSteady pos cs
      → t.glyph (exec_all t cs sc) q ≡ t.glyph sc q
  unfolding exec_all
  exec_all-glyph [] sc q all = refl
  exec_all-glyph (c ∷ cs) sc q ((quiet, still), rest) =
      exec_all-glyph cs (t.exec c sc) q rest ∙ t.glyph_quiet c sc q quiet

exec_all-shader :
    (t : Terminal) (cells : List ShaderCommand) (c : ShaderCommand) (l : List ShaderCommand)
    (sc : t.Screen)
    → exec_all t ((cells ++ c ∷ []) ++ l) sc ≡ exec_all t l (t.exec c (exec_all t cells sc))
unfolding exec_all
exec_all-shader t cells c l sc =
    exec_all-append t (cells ++ c ∷ []) l sc
    ∙ ap (exec_all t l) (exec_all-append t cells (c ∷ []) sc)

module _ {s : Crossterm} where
  -- `r` is a normal return of `shade` whose commands bring the screen `sc` to the current frame.
  pub record Shades (t : Terminal) (can : Canvas s) (sc : t.Screen)
      (r : Outcome (Canvas s × Shader)) : Type 0 where
    pub after : Canvas s
    pub shader : Shader
    pub returns : r ≡ ok (after, shader)
    pub shows :
        (q : U16Pos)
        → Inside can.frame.iframe q
        → ShowsAt t can.frame (exec_all t shader.commands sc) q
    pub cursor : t.cursor (exec_all t shader.commands sc) ≡ can.frame.cursor.pos
    pub done : after ≡ shade_done can
    pub saved : after.prev_frame ≡ can.frame
    pub ready : IsReady after
    pub tracked : IsTracked after

  -- The position of the frame's cursor lies on the screen, and so does the frame.
  pub record Fits (t : Terminal) (can : Canvas s) : Type 0 where
    pub width : (size can).width ≤ t.size.width
    pub height : (size can).height ≤ t.size.height
    pub rows : (size can).height < u16_mod
    pub cursor_x : can.frame.cursor.pos.x < t.size.width
    pub cursor_y : can.frame.cursor.pos.y < t.size.height

  zero_sized-Inside :
      (can : Canvas s) (q : U16Pos)
      → Inside can.frame.iframe q
      → zero_sized can.frame.iframe ≡ false
  unfolding zero_sized
  zero_sized-Inside can q h = ground arith

  -- On well-formed frames of one size, whose unmarked rows read as they did, and which fit the
  -- terminal, with one narrow code point at most in each cell: on a screen that shows the previous
  -- frame `shade` returns, its commands make the screen show the current frame and put the cursor in
  -- its place, and the canvas is ready for the next frame, with the current one saved.
  pub shade-Shades :
      (t : Terminal) (can : Canvas s) (sc : t.Screen)
      → IsReady can
      → IsTracked can
      → Fits t can
      → IsSingle t.IsNarrow can.frame.iframe.cells
      → ((q : U16Pos) → Inside can.frame.iframe q → ShowsAt t can.prev_frame sc q)
      → Shades t can sc (shade can)
  unfolding shade shade_done
  shade-Shades t can sc r tr fits single shown =
      let (rows, eq, (full, void)) = brute_force_diff-runs can r in
      let cells = row_commands can 0 rows in
      let pos = can.frame.cursor.pos in
      let painted = exec_all t cells sc in
      let placed = t.exec (cursor_move_to pos) painted in
      let steady = shade_cursor-AllSteady can in
      let split = exec_all-shader t cells (cursor_move_to pos) (shade_cursor can) sc in
      record {
        after = shade_done can;
        shader = record { commands = (cells ++ cursor_move_to pos ∷ []) ++ shade_cursor can };
        returns = ground (arith, shade_cells_lem can r tr fits.rows, eq);
        shows = λ q inside c g.
            ap (λ (x : t.Screen). t.glyph x q) split
            ∙ exec_all-glyph t pos fits.cursor_x fits.cursor_y (shade_cursor can) placed q steady
            ∙ t.glyph_quiet (cursor_move_to pos) painted q tt
            ∙ rows_in t can r single fits.width fits.height rows 0 sc q
                (full (zero_sized-Inside can q inside)) (omega arith) inside
                (λ same d e. shown q inside d (sym same ∙ e)) c g;
        cursor =
            ap t.cursor split
            ∙ exec_all-cursor t pos fits.cursor_x fits.cursor_y (shade_cursor can) placed steady
                (t.cursor_move pos painted fits.cursor_x fits.cursor_y);
        done = refl;
        saved = refl;
        ready = shade_done-IsReady can r;
        tracked = shade_done-IsTracked can;
      }
