-- ===== src/Window/Content/Whole.antt =====
-- The drawing of the lines of a viewport, and of the rows below them.
use rsvim.Prelude.{
  ℕ, zero, suc, ◌+◌, ◌-◌, ◌≤◌, ◌<◌, ◌≡◌, refl, ap, ◌⊎◌, ◌==◌, ◌||◌, false, ltb, leb, List, [], ◌∷◌,
  ◌++◌, length, some, Outcome, ok, assert, Map, lookup, arith,
}
use mathlib.Core.Path.{subst}
use rsvim.Cart.{U16Pos, add_u16}
use rsvim.Canvas.Cell.{Crossterm}
use rsvim.Canvas.Frame.{Frame}
use rsvim.Tree.Geo.{Geo}
use rsvim.Buf.Rope.{concat, Texts}
use rsvim.Buf.Buffer.{FileTypes, Buffer, char_width, get_lines_at, len_lines}
use rsvim.Viewport.Rows.{LineViewport}
use rsvim.Viewport.Scan.Tiles.{rows_of, AllWide, last_sum}
use rsvim.Viewport.Sync.Lays.{Fit, Shows}
use rsvim.Viewport.Sync.Tiled.{AllLinesWide, Tiled}
use rsvim.Viewport.Sync.Displays.{lines_from}
use rsvim.Viewport.View
use rsvim.Viewport.View.{Viewport, sync_from_top_left, _internal_check}
use rsvim.Viewport.View.Check.{bottom_ge}
use rsvim.Viewport.View.Made.{ShowsBuffer, sync_from_top_left-ShowsBuffer}
use rsvim.Window.Content.{Draw, draw_line, draw_lines, draw_blank, draw_frame, draw}
use rsvim.Canvas.Diff.{Canvas}
use rsvim.Window.Content.Region.{
  InFrame, Keeps, Keeps-refl, Keeps-trans, Keeps-InFrame, put_fills-Keeps,
}
use rsvim.Window.Content.Line.{last_row, draw_rows-Keeps}

-- The entries of a map are found in another one.
Found : Map LineViewport → Map LineViewport → Type 0
Found full [] = Unit
Found full ((k, v) ∷ m) = (lookup k full ≡ some v) × Found full m

module _ (width height : ℕ) (char_width : ℕ → Outcome ℕ) (w : ℕ → ℕ) where
  Found-cons :
      (ls : List (List ℕ)) (k l r bottom : ℕ) (v : LineViewport) (full m : Map LineViewport)
      → Tiled char_width w width height ls l r bottom m
      → k < l
      → Found full m
      → Found ((k, v) ∷ full) m
  unfolding Found
  Found-cons ls k l r bottom v full [] t lt h = tt
  Found-cons [] k l r bottom v full (e ∷ m) t lt h = absurd t
  Found-cons (line ∷ ls) k l r bottom v full ((j, u) ∷ m) (ej, inside, sh, some_run, t) lt (hj, h) =
      (
        ground (arith, hj, ej),
        Found-cons ls k (l + 1) (r + length sh.runs) bottom v full m t (omega arith) h,
      )

  all-Found :
      (ls : List (List ℕ)) (l r bottom : ℕ) (m : Map LineViewport)
      → Tiled char_width w width height ls l r bottom m
      → Found m m
  unfolding Found
  all-Found ls l r bottom [] t = tt
  all-Found [] l r bottom (e ∷ m) t = absurd t
  all-Found (line ∷ ls) l r bottom ((k, v) ∷ m) (ek, inside, sh, some_run, t) = (
    ground arith,
    Found-cons ls k (l + 1) (r + length sh.runs) bottom v m m t (omega (arith, ek))
        (all-Found ls (l + 1) (r + length sh.runs) bottom m t),
  )

module _ {s : Crossterm} (upos : U16Pos) (width height : ℕ) {x : Texts} {f : FileTypes}
    (b : Buffer x f) (w : ℕ → ℕ) where
  draw_line-Keeps :
      (line : List ℕ) (v : LineViewport) (r : ℕ) (fr : Frame s)
      → (sh : Shows w width line r v) → InFrame upos width height fr
      → AllWide w (char_width b) width line
      → r + length sh.runs ≤ height
      → (p : ℕ × Frame s) × (draw_line upos b width height line v (r, fr) ≡ ok p)
        × (p.0 ≡ r + length sh.runs)
        × Keeps upos width height fr p.1
  unfolding draw_line rows_of
  draw_line-Keeps line v r fr sh h wide below =
      go sh.runs sh.split sh.placed sh.fit sh.end_fills below
    where
      go :
          (runs : List (List ℕ))
          → line ≡ concat runs ++ sh.rest
          → v.rows ≡ rows_of w runs r 0 0
          → Fit w width runs
          → last_sum w runs + v.end_filled_columns ≤ width
          → r + length runs ≤ height
          → (p : ℕ × Frame s) × (draw_line upos b width height line v (r, fr) ≡ ok p)
            × (p.0 ≡ r + length runs)
            × Keeps upos width height fr p.1
      go [] split placed fit ends below =
          ((r, fr), rw placed refl, omega arith, Keeps-refl upos width height fr h)
      go (run ∷ runs) split placed fit ends below =
          let st : Draw s = record {
            frame = fr;
            row_idx = r;
            start_fills_count = 0;
            end_fills_count = 0;
          } in
          let v' : LineViewport = record v { rows = rows_of w (run ∷ runs) r 0 0 } in
          let (u, el) = last_row w run runs r 0 0 in
          let (st', e, er, k) =
            draw_rows-Keeps upos width height b w line [] sh.rest run runs v' r (r + length runs) r
              0 0 st split refl refl refl h (subst (AllWide w (char_width b) width) split wide) fit
              ends (omega arith) sh.start_fills refl in
          ((st'.row_idx, st'.frame), rw placed (rw el (rw e refl)), er, k)

  draw_lines-Keeps :
      (full : Map LineViewport) (ls : List (List ℕ)) (l r bottom : ℕ) (m : Map LineViewport)
      (fr : Frame s)
      → Tiled (char_width b) w width height ls l r bottom m
      → Found full m
      → InFrame upos width height fr
      → AllLinesWide (char_width b) w width ls
      → bottom ≤ height
      → (p : ℕ × Frame s) × (draw_lines upos b width height full (length m) l ls (r, fr) ≡ ok p)
        × (p.0 ≡ bottom)
        × Keeps upos width height fr p.1
  unfolding draw_lines Found
  draw_lines-Keeps full ls l r bottom [] fr t found h wide below =
      ((r, fr), refl, t, Keeps-refl upos width height fr h)
  draw_lines-Keeps full [] l r bottom (e ∷ m) fr t found h wide below = absurd t
  draw_lines-Keeps full (line ∷ ls) l r bottom ((k, v) ∷ m) fr (ek, inside, sh, some_run, t)
        (ef, found) h (wide, all) below =
      let r' = r + length sh.runs in
      let (p, e, er, kp) =
        draw_line-Keeps line v r fr sh h wide
          (omega (arith, bottom_ge (char_width b) w width height ls (l + 1) r' bottom m t)) in
      let fr' = p.1 in
      let (q, e', eq, kq) =
        draw_lines-Keeps full ls (l + 1) r' bottom m fr' t found
          (Keeps-InFrame upos width height fr fr' h kp) all below in
      let at : p ≡ (r', fr') = ap (λ n. (n, fr')) er in
      let tested : assert (ltb r height) ≡ ok tt = ground arith in
      let el : lookup l full ≡ some v = subst (λ n. lookup n full ≡ some v) ek ef in
      (q, rw tested (rw el (rw e (rw at e'))), eq, Keeps-trans upos width height fr fr' q.1 kp kq)

  draw_blank-Keeps :
      (n r : ℕ) (fr : Frame s)
      → 0 < width
      → n + r ≤ height
      → InFrame upos width height fr
      → (fr' : Frame s) × (draw_blank upos b width height n r fr ≡ ok fr')
        × Keeps upos width height fr fr'
  unfolding draw_blank add_u16
  draw_blank-Keeps zero r fr pos fit h = (fr, refl, Keeps-refl upos width height fr h)
  draw_blank-Keeps (suc n) r fr pos fit h =
      let (f1, e1, k1) =
        put_fills-Keeps upos width height fr b' ' width 0 r h pos (omega arith) (omega arith) in
      let (f2, e2, k2) =
        draw_blank-Keeps n (r + 1) f1 pos (omega arith)
          (Keeps-InFrame upos width height fr f1 h k1) in
      let row : add_u16 r 1 ≡ ok (r + 1) = ground (arith, h.below, h.small_height) in
      (f2, rw e1 (rw row e2), Keeps-trans upos width height fr f1 f2 k1 k2)

-- The drawing of a window whose viewport shows the buffer, where the frame is valid and has the window's
-- rectangle, and where every character from the first shown line on has a width of at most that of the
-- window.
draw_frame-Keeps :
    {s : Crossterm} (g : Geo) {x : Texts} {f : FileTypes} (w : ℕ → ℕ) (b : Buffer x f)
    (shape : g.U16Rect) (start_line : ℕ) (v : Viewport g) (fr : Frame s)
    → ShowsBuffer w b shape start_line v
    → 0 < g.uwidth shape
    → 0 < g.uheight shape
    → start_line < len_lines b
    → AllLinesWide (char_width b) w (g.uwidth shape) (lines_from g w b shape start_line)
    → InFrame (g.umin shape) (g.uwidth shape) (g.uheight shape) fr
    → (fr' : Frame s) × (draw_frame g b v shape fr ≡ ok fr')
      × Keeps (g.umin shape) (g.uwidth shape) (g.uheight shape) fr fr'
unfolding draw_frame View.end_line_idx View.start_line_idx View.lines
draw_frame-Keeps g {x} w b shape start_line v fr d pw ph inside wide h =
    let upos = g.umin shape in
    let width = g.uwidth shape in
    let height = g.uheight shape in
    let ls = lines_from g w b shape start_line in
    let found = all-Found width height (char_width b) w ls start_line 0 d.bottom v.lines d.tiled in
    let (p, e, er, k) =
      draw_lines-Keeps upos width height b w v.lines ls start_line 0 d.bottom v.lines fr d.tiled
        found h wide d.inside in
    let (fr', e', k') =
      draw_blank-Keeps upos width height b w (height - p.0) p.0 p.1 pw (omega (arith, er, d.inside))
        (Keeps-InFrame upos width height fr p.1 h k) in
    let sized : (height == 0 || width == 0) ≡ false = ground arith in
    let at : get_lines_at b v.start_line_idx ≡ some ls =
      ground (arith, x.get_lines_at_lem b.rope start_line, d.starts) in
    let count : v.end_line_idx - v.start_line_idx ≡ length v.lines =
      omega (arith, d.starts, d.ends) in
    let some_lines : leb v.end_line_idx v.start_line_idx ≡ false =
      ground (arith, d.starts, d.ends, d.some_line) in
    (
      fr',
      rw sized (rw d.check (rw some_lines (rw at (rw count (rw d.starts (rw e e')))))),
      Keeps-trans upos width height fr p.1 fr' k k',
    )

-- A window is synchronized with the first column of a line of its buffer, under the conditions of
-- `from_top_left-Displays`, and then drawn on a canvas whose frame is valid, has fewer than 65535 rows and
-- contains the window's rectangle: both return, without a panic. Every cell outside of the window stays as it was, and so do the size and
-- the cursor of the frame, and the previous frame.
pub draw-sync_from_top_left :
    {s : Crossterm} (g : Geo) {x : Texts} {f : FileTypes} (w : ℕ → ℕ) (b : Buffer x f)
    (v : Viewport g) (start_line : ℕ) (canvas : Canvas s)
    → 0 < g.uwidth v.actual_shape
    → 0 < g.uheight v.actual_shape
    → start_line < len_lines b
    → AllLinesWide
        (char_width b)
        w
        (g.uwidth v.actual_shape)
        (lines_from g w b v.actual_shape start_line)
    → (v.options.wrap ≡ false) ⊎ (v.options.line_break ≡ false)
    → InFrame
        (g.umin v.actual_shape)
        (g.uwidth v.actual_shape)
        (g.uheight v.actual_shape)
        canvas.frame
    → (v' : Viewport g) × (sync_from_top_left b start_line 0 v ≡ ok v')
      × (canvas' : Canvas s) × (draw g b v' v.actual_shape canvas ≡ ok canvas')
      × Keeps
          (g.umin v.actual_shape)
          (g.uwidth v.actual_shape)
          (g.uheight v.actual_shape)
          canvas.frame
          canvas'.frame
      × (canvas'.prev_frame ≡ canvas.prev_frame)
unfolding draw
draw-sync_from_top_left g w b v start_line canvas pw ph inside wide modes h =
    let (v', e, shown) =
      sync_from_top_left-ShowsBuffer w b v start_line pw (omega (arith, h.right, h.small_width)) ph
        (omega (arith, h.below, h.small_height)) inside wide modes in
    let (fr', e', k) =
      draw_frame-Keeps g w b v.actual_shape start_line v' canvas.frame shown pw ph inside wide h in
    (v', e, record canvas { frame = fr' }, rw e' refl, k, refl)
