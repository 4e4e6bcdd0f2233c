-- ===== src/Canvas/Session/Start.antt =====
-- A canvas from its start: a new one, on a blank terminal, is ready to be drawn on.
use rsvim.Prelude.{◌+◌, ◌*◌, ◌≤◌, ◌<◌, ◌≡◌, refl, ◌∙◌, ap, arith, get_elem?-replicate_inv}
use mathlib.Core.Path.{subst}
use rsvim.Cart.{U16Pos, U16Size, u16_mod}
use rsvim.Canvas.Cell.{Crossterm, Cell, default, empty, space_code}
use rsvim.Canvas.Cursor.{Cursor}
use rsvim.Canvas.Cursor
use rsvim.Canvas.Frame
use rsvim.Canvas.Iframe
use rsvim.Canvas.Iframe.{Iframe, pos2idx, set_cell, try_set_cells_at}
use rsvim.Canvas.Iframe.Valid.{new-IsValid}
use rsvim.Canvas.Iframe.Write.{get_cell-eq-ok}
use rsvim.Canvas.Terminal.{Terminal}
use rsvim.Canvas.Diff
use rsvim.Canvas.Diff.{Canvas, size}
use rsvim.Canvas.Shade.{shade}
use rsvim.Canvas.Shade.Text.{glyph_of}
use rsvim.Canvas.Shade.Refine.{Shades, shade-Shades}
use rsvim.Canvas.Session.{World, Reach, Inv, Reach-Inv, IsNarrowCell}

module _ (s : Crossterm) (t : Terminal) where
  -- A new canvas on a screen of spaces.
  abbrev pub started : U16Size → t.Screen → World s t
  started area sc = record { can = Diff.new area; sc = sc }

  pub started-Inv :
      (area : U16Size) (sc : t.Screen)
      → (area.width ≤ t.size.width) × (area.height ≤ t.size.height)
      → (0 < t.size.width) × (0 < t.size.height)
      → (area.width < u16_mod) × (area.height + 1 < u16_mod)
      → t.IsNarrow space_code
      → ((q : U16Pos) → t.glyph sc q ≡ space_code)
      → Inv s t (started area sc)
  unfolding Diff.new Frame.new Iframe.new Frame.get_cell Cursor.default default empty
  started-Inv area sc fits pos small narrow blank = record {
    ready = record { frame = new-IsValid area; prev_frame = new-IsValid area; same_size = refl };
    tracked = λ p inside clean. refl;
    fits = record {
      width = fits.0;
      height = fits.1;
      rows = omega arith;
      cursor_x = pos.0;
      cursor_y = pos.1;
    };
    rows = small.1;
    columns = small.0;
    single = λ i c e.
        subst (IsNarrowCell s t) (get_elem?-replicate_inv (area.height * area.width) empty i e)
          (omega arith, narrow);
    shown = λ q inside c g.
        blank q
        ∙ ap (λ (x : Cell s). glyph_of x.symbol)
            (get_elem?-replicate_inv (area.height * area.width) empty _
              (get_cell-eq-ok (started area sc).can.prev_frame.iframe q g));
  }

  -- A new canvas of fewer than 65536 columns and 65535 rows on a blank terminal that has rows, columns and
  -- room for it, and on which a space is narrow:
  -- however narrow cells are written at positions inside of the frame, runs of narrow cells are written
  -- that end in the frame, the cursor is placed inside of the terminal and the frame is shaded, in calls
  -- that return, the next shade returns, and its commands bring the screen to the frame.
  pub session-Shades :
      (area : U16Size) (sc : t.Screen) (w : World s t)
      → (area.width ≤ t.size.width) × (area.height ≤ t.size.height)
      → (0 < t.size.width) × (0 < t.size.height)
      → (area.width < u16_mod) × (area.height + 1 < u16_mod)
      → t.IsNarrow space_code
      → ((q : U16Pos) → t.glyph sc q ≡ space_code)
      → Reach s t (started area sc) w
      → Shades t w.can w.sc (shade w.can)
  session-Shades area sc w fits pos small narrow blank reach =
      let i = Reach-Inv s t (started-Inv area sc fits pos small narrow blank) reach in
      shade-Shades t w.can w.sc i.ready i.tracked i.fits i.single i.shown
