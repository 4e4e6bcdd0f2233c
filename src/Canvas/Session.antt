-- ===== src/Canvas/Session.antt =====
-- The life of a canvas: widgets draw on the frame (rsvim_core/src/ui/canvas/frame.rs), and between
-- the draws the frame is shaded to the terminal (rsvim_core/src/ui/canvas.rs).
pub mod Start
use package.rsvim.Prelude.{
  ◌+◌, ◌-◌, ◌*◌, ◌≤◌, ◌<◌, ◌≡◌, refl, sym, ◌∙◌, ap, List, ok, arith, length, some,
  get_elem?-replicate_inv,
}
use mathlib.Core.Path.{subst, subst₂}
use package.rsvim.Cart.{U16Pos, U16Size, u16_mod}
use package.rsvim.Canvas.Cell.{Crossterm, Cell, default, empty, space_code}
use package.rsvim.Canvas.Cursor.{Cursor}
use package.rsvim.Canvas.Cursor
use package.rsvim.Canvas.Frame
use package.rsvim.Canvas.Iframe
use package.rsvim.Canvas.Iframe.{Iframe, pos2idx, set_cell, try_set_cells_at}
use package.rsvim.Canvas.Iframe.Valid.{IsValid, Inside, new-IsValid}
use package.rsvim.Canvas.Iframe.Write.{set_cell-Writes, get_cell-eq-ok}
use package.rsvim.Canvas.Iframe.Region.{try_set_cells_at-Replaces, try_set_cells_at_range}
use package.rsvim.Canvas.Draw.{Tracks, set_cell-Tracks, try_set_cells_at-Tracks}
use package.rsvim.Canvas.Shader.{Shader}
use package.rsvim.Canvas.Terminal.{Terminal, exec_all}
use package.rsvim.Canvas.Diff
use package.rsvim.Canvas.Diff.{Canvas, size}
use package.rsvim.Canvas.Diff.Ready.{IsReady}
use package.rsvim.Canvas.Diff.Rows.{IsTracked}
use package.rsvim.Canvas.Shade.{shade, shade_done}
use package.rsvim.Canvas.Shade.Text.{IsSingle, glyph_of}
use package.rsvim.Canvas.Shade.Screen.{ShowsAt}
use package.rsvim.Canvas.Shade.Refine.{Shades, Fits, shade-Shades}

module _ (s : Crossterm) (t : Terminal) where
  -- The canvas, and the screen of the terminal.
  pub record World : Type 0 where
    pub can : Canvas s
    pub sc : t.Screen

  abbrev pub IsNarrowCell : Cell s → Type 0
  IsNarrowCell c = (length c.symbol ≤ 1) × t.IsNarrow (glyph_of c.symbol)

  -- One call on the canvas that returned: a narrow cell written inside of the frame, a run of narrow cells
  -- that ends in the frame, a cursor placed inside of the terminal, or a shade.
  pub data Step (w : World) : World → Type 0 where
    draw_cell :
        {u : World} (pos : U16Pos) (cell old : Cell s) (f : Iframe s)
        → Inside w.can.frame.iframe pos
        → IsNarrowCell cell
        → set_cell w.can.frame.iframe pos cell ≡ ok (f, old)
        → u ≡ record w { can = record w.can { frame = record w.can.frame { iframe = f } } }
        → Step w u
    draw_cells :
        {u : World} (pos : U16Pos) (cells old : List (Cell s)) (f : Iframe s)
        → IsSingle t.IsNarrow cells
        → try_set_cells_at w.can.frame.iframe pos cells ≡ ok (f, some old)
        → u ≡ record w { can = record w.can { frame = record w.can.frame { iframe = f } } }
        → Step w u
    place_cursor :
        {u : World} (cursor : Cursor)
        → cursor.pos.x < t.size.width
        → cursor.pos.y < t.size.height
        → u ≡ record w { can = record w.can { frame = Frame.set_cursor w.can.frame cursor } }
        → Step w u
    flush :
        {u : World} (can : Canvas s) (shader : Shader)
        → shade w.can ≡ ok (can, shader)
        → u ≡ record { can = can; sc = exec_all t shader.commands w.sc }
        → Step w u

  pub data Reach (w : World) : World → Type 0 where
    here : Reach w w
    next : {u v : World} → Reach w u → Step u v → Reach w v

  -- What holds of the world between two calls.
  pub record Inv (w : World) : Type 0 where
    pub ready : IsReady w.can
    pub tracked : IsTracked w.can
    pub fits : Fits t w.can
    pub rows : (size w.can).height + 1 < u16_mod
    pub columns : (size w.can).width < u16_mod
    pub single : IsSingle t.IsNarrow w.can.frame.iframe.cells
    pub shown : (q : U16Pos) → Inside w.can.frame.iframe q → ShowsAt t w.can.prev_frame w.sc q

  -- The frame's cells replaced by those of `f`, which has the same size.
  with_cells : (w : World) (f : Iframe s) → World
  with_cells w f = record w { can = record w.can { frame = record w.can.frame { iframe = f } } }

  with_cells-Inv :
      (w : World) (f : Iframe s)
      → Inv w
      → IsValid f
      → f.size ≡ w.can.frame.iframe.size
      → Tracks w.can.prev_frame.iframe f
      → IsSingle t.IsNarrow f.cells
      → Inv (with_cells w f)
  unfolding with_cells Frame.get_cell
  with_cells-Inv w f i v e tr single = record {
    ready = record {
      frame = v;
      prev_frame = i.ready.prev_frame;
      same_size = i.ready.same_size ∙ sym e;
    };
    tracked = tr;
    fits = ground (arith, i.fits, e);
    rows = ground (arith, i.rows, e);
    columns = ground (arith, i.columns, e);
    single = single;
    shown = λ q inside. i.shown q (ground (arith, e));
  }

  set_cell-Inv :
      (w : World) (pos : U16Pos) (cell old : Cell s) (f : Iframe s)
      → Inv w
      → Inside w.can.frame.iframe pos
      → IsNarrowCell cell
      → set_cell w.can.frame.iframe pos cell ≡ ok (f, old)
      → Inv (with_cells w f)
  unfolding Frame.get_cell
  set_cell-Inv w pos cell old f i h narrow e =
      let g = w.can.frame.iframe in
      let wr = set_cell-Writes g pos cell i.ready.frame h in
      let same : f ≡ wr.after = ground (arith, e, wr.returns) in
      subst (λ (x : Iframe s). Inv (with_cells w x)) (sym same)
        (with_cells-Inv w wr.after i wr.valid wr.size
          (set_cell-Tracks w.can.prev_frame.iframe g pos cell wr i.tracked)
          (λ j c ec. ground (arith, i.single j c, wr.placed j)))

  try_set_cells_at-Inv :
      (w : World) (pos : U16Pos) (cells old : List (Cell s)) (f : Iframe s)
      → Inv w
      → IsSingle t.IsNarrow cells
      → try_set_cells_at w.can.frame.iframe pos cells ≡ ok (f, some old)
      → Inv (with_cells w f)
  unfolding Frame.get_cell
  try_set_cells_at-Inv w pos cells old f i narrow e =
      let g = w.can.frame.iframe in
      let (low, high) = try_set_cells_at_range g pos cells e in
      let wr = try_set_cells_at-Replaces g pos cells i.ready.frame i.columns i.rows low high in
      let same : f ≡ wr.after = ground (arith, e, wr.returns) in
      subst (λ (x : Iframe s). Inv (with_cells w x)) (sym same)
        (with_cells-Inv w wr.after i wr.valid wr.size
          (try_set_cells_at-Tracks w.can.prev_frame.iframe g pos cells wr i.tracked)
          (λ j c ec. ground (arith, i.single j c, narrow (j - pos2idx g pos) c, wr.placed j)))

  place_cursor-Inv :
      (w : World) (cursor : Cursor)
      → cursor.pos.x < t.size.width
      → cursor.pos.y < t.size.height
      → Inv w
      → Inv (record w { can = record w.can { frame = Frame.set_cursor w.can.frame cursor } })
  unfolding Frame.set_cursor Frame.get_cell
  place_cursor-Inv w cursor hx hy i = record {
    ready = record {
      frame = i.ready.frame;
      prev_frame = i.ready.prev_frame;
      same_size = i.ready.same_size;
    };
    tracked = i.tracked;
    fits = ground (arith, i.fits);
    rows = i.rows;
    columns = i.columns;
    single = i.single;
    shown = i.shown;
  }

  -- The canvas after a shade, on a screen that shows the frame.
  shade_done-Inv :
      (w : World) (sc : t.Screen)
      → Inv w
      → IsReady (shade_done w.can)
      → IsTracked (shade_done w.can)
      → ((q : U16Pos) → Inside w.can.frame.iframe q → ShowsAt t w.can.frame sc q)
      → Inv (record { can = shade_done w.can; sc = sc })
  unfolding shade_done Frame.reset_dirty_rows Iframe.reset_dirty_rows
  shade_done-Inv w sc i ready tracked shows = record {
    ready = ready;
    tracked = tracked;
    fits = ground (arith, i.fits);
    rows = i.rows;
    columns = i.columns;
    single = i.single;
    shown = shows;
  }

  -- What a shade returns, and what it leaves on the screen.
  flushed :
      (w : World) (can : Canvas s) (shader : Shader)
      → Inv w
      → shade w.can ≡ ok (can, shader)
      → (sh : Shades t w.can w.sc (shade w.can)) × (sh.after ≡ can) × (sh.shader ≡ shader)
  flushed w can shader i e =
      let sh = shade-Shades t w.can w.sc i.ready i.tracked i.fits i.single i.shown in
      (sh, ground (arith, sh.returns, e), ground (arith, sh.returns, e))

  flush-Inv :
      (w : World) (can : Canvas s) (shader : Shader)
      → Inv w
      → shade w.can ≡ ok (can, shader)
      → Inv (record { can = can; sc = exec_all t shader.commands w.sc })
  flush-Inv w can shader i e =
      let (sh, ec, es) = flushed w can shader i e in
      subst₂
        (λ (x : Canvas s) (y : Shader). Inv (record { can = x; sc = exec_all t y.commands w.sc }))
        (sym sh.done ∙ ec) es
        (shade_done-Inv w (exec_all t sh.shader.commands w.sc) i (subst IsReady sh.done sh.ready)
          (subst IsTracked sh.done sh.tracked) sh.shows)

  -- Every call on the canvas keeps what holds between two calls.
  pub Step-Inv : {w u : World} → Step w u → Inv w → Inv u
  unfolding with_cells
  Step-Inv {w} (draw_cell pos cell old f h narrow e eu) i =
      rw eu (set_cell-Inv w pos cell old f i h narrow e)
  Step-Inv {w} (draw_cells pos cells old f narrow e eu) i =
      rw eu (try_set_cells_at-Inv w pos cells old f i narrow e)
  Step-Inv {w} (place_cursor cursor hx hy eu) i = rw eu (place_cursor-Inv w cursor hx hy i)
  Step-Inv {w} (flush can shader e eu) i = rw eu (flush-Inv w can shader i e)

  -- However narrow cells are written at positions inside of the frame, runs of narrow cells are written
  -- that end in the frame, the cursor is placed inside of the terminal and the frame is shaded, in calls
  -- that return, what holds between two calls still holds: the frames are well formed and of one size,
  -- fit the terminal and hold narrow cells, unmarked rows read as in the previous frame, and the screen
  -- shows the previous frame.
  pub Reach-Inv : {w u : World} → Inv w → Reach w u → Inv u
  Reach-Inv i here = i
  Reach-Inv i (next r st) = Step-Inv st (Reach-Inv i r)
