-- ===== src/Viewport/View/Made.antt =====
-- A viewport that is made or synchronized passes the check of its invariants.
use rsvim.Prelude.{
  ℕ, ◌+◌, ◌≤◌, ◌<◌, ◌≡◌, refl, ◌⊎◌, false, List, [], ◌∷◌, length, length-drop, arith, Map, some,
  none, Outcome, ok, panic, last_key_value,
}
use rsvim.Cart.{u16_mod}
use rsvim.Tree.Geo.{Geo}
use rsvim.Buf.Rope.{Texts}
use rsvim.Buf.Buffer.{FileTypes, Buffer, len_lines, char_width}
use rsvim.Viewport.Rows
use rsvim.Viewport.Rows.{LineViewport, CursorViewport, ViewportLineRange, ViewportOptions, len}
use rsvim.Viewport.Scan.{sub_usize}
use rsvim.Viewport.Scan.Tiles.{cells, rows_of}
use rsvim.Viewport.Sync.{from_top_left}
use rsvim.Viewport.Sync.Lays.{Fit, Shows}
use rsvim.Viewport.Sync.Tiled.{AllLinesWide, Tiled}
use rsvim.Viewport.Sync.Displays.{Displays, lines_from, from_top_left-Displays}
use rsvim.Viewport.View.{
  Viewport, top_left, first_cursor, new_cursor, _internal_check, is_empty, new, sync_from_top_left,
}
use rsvim.Viewport.View.Check.{check_lines_lem}

module _ (char_width : ℕ → Outcome ℕ) (w : ℕ → ℕ) (width height : ℕ) where
  abbrev at_first : ℕ → ℕ → CursorViewport
  at_first l c = record {
    start_dcol_idx = 0;
    end_dcol_idx = 0 + w c;
    char_idx = 0;
    row_idx = 0;
    line_idx = l;
  }

  -- The cursor has a place in the first line.
  first_cursor_lem :
      (line : List ℕ) (l : ℕ) (v : LineViewport)
      → Shows w width line 0 v
      → (c : CursorViewport) × (first_cursor (l, v) ≡ ok c)
  unfolding first_cursor rows_of cells
  first_cursor_lem line l v s = go s.runs s.fit s.placed
    where
      go :
          (runs : List (List ℕ))
          → Fit w width runs
          → v.rows ≡ rows_of w runs 0 0 0
          → (c : CursorViewport) × (first_cursor (l, v) ≡ ok c)
      go [] fit e = (top_left, rw e refl)
      go ([] ∷ runs) fit e = absurd (omega (arith, fit.1))
      go ((c ∷ cs) ∷ runs) fit e = (at_first l c, rw e refl)

  -- The last line that is shown.
  last_line :
      (ls : List (List ℕ)) (l r bottom : ℕ) (e : ℕ × LineViewport) (m : Map LineViewport)
      → Tiled char_width w width height ls l r bottom (e ∷ m)
      → (v : LineViewport) × (last_key_value (e ∷ m) ≡ some (l + length m, v))
  last_line [] l r bottom e m h = absurd h
  last_line (line ∷ ls) l r bottom (k, v) [] (ek, inside, s, some_run, h) = (v, ground (arith, ek))
  last_line (line ∷ ls) l r bottom (k, v) (e ∷ m) (ek, inside, s, some_run, h) =
      let rest = last_line ls (l + 1) (r + length s.runs) bottom e m h in
      (rest.0, ground (arith, rest.1))

  abbrev range : ℕ → Map LineViewport → ViewportLineRange
  range l m = record { start_line_idx = l; end_line_idx = l + length m }

  -- The assertions of `Viewport::new` hold.
  new_cursor_lem :
      (ls : List (List ℕ)) (l bottom : ℕ) (m : Map LineViewport)
      → Tiled char_width w width height ls l 0 bottom m
      → (c : CursorViewport) × (new_cursor (range l m) m ≡ ok c)
  unfolding new_cursor Rows.is_empty len sub_usize
  new_cursor_lem ls l bottom [] h = (top_left, ground arith)
  new_cursor_lem [] l bottom (e ∷ m) h = absurd h
  new_cursor_lem (line ∷ ls) l bottom ((k, v) ∷ m) (ek, inside, s, some_run, h) =
      let last = last_line (line ∷ ls) l 0 bottom (k, v) m (ek, inside, s, some_run, h) in
      let c = first_cursor_lem line k v s in (c.0, ground (arith, last.1, c.1, ek))

  -- The lines pass the check.
  check_lem :
      {g : Geo} (v : Viewport g) (ls : List (List ℕ)) (bottom : ℕ)
      → Tiled char_width w width height ls v.start_line_idx 0 bottom v.lines
      → v.end_line_idx ≡ v.start_line_idx + length v.lines
      → 0 < length v.lines
      → bottom < u16_mod
      → _internal_check v ≡ ok tt
  unfolding _internal_check sub_usize
  check_lem v ls bottom h e pos lt = go ls v.lines h e pos
    where
      go :
          (ls : List (List ℕ)) (m : Map LineViewport)
          → Tiled char_width w width height ls v.start_line_idx 0 bottom m
          → v.end_line_idx ≡ v.start_line_idx + length m
          → 0 < length m
          → _internal_check (record v { lines = m }) ≡ ok tt
      go ls [] h e pos = absurd (omega arith)
      go [] (x ∷ m) h e pos = absurd h
      go (line ∷ ls) ((k, u) ∷ m) (ek, inside, s, some_run, h) e pos =
          let last =
            last_line (line ∷ ls) v.start_line_idx 0 bottom (k, u) m (ek, inside, s, some_run, h) in
          let rest =
            check_lines_lem char_width w width height (line ∷ ls) v.start_line_idx 0 bottom
              ((k, u) ∷ m) none none (ek, inside, s, some_run, h) lt tt tt in
          ground (arith, last.1, ek, e, rest)

  some_shown :
      (ls : List (List ℕ)) (l bottom : ℕ) (m : Map LineViewport)
      → Tiled char_width w width height ls l 0 bottom m
      → (length m ≡ length ls) ⊎ (bottom ≡ height)
      → 0 < length ls
      → 0 < height
      → 0 < length m
  some_shown ls l bottom [] h ends some_line pos = ground (arith, h, ends)
  some_shown ls l bottom (e ∷ m) h ends some_line pos = omega arith

-- The viewport shows the buffer from the line `start_line` on: at least this line, one line below the other
-- without a gap. It passes the check of its invariants, so that each getter returns.
pub record ShowsBuffer {g : Geo} {x : Texts} {f : FileTypes} (w : ℕ → ℕ) (b : Buffer x f)
    (shape : g.U16Rect) (start_line : ℕ) (v : Viewport g) : Type 0 where
  pub bottom : ℕ
  pub starts : v.start_line_idx ≡ start_line
  pub ends : v.end_line_idx ≡ start_line + length v.lines
  pub some_line : 0 < length v.lines
  pub tiled :
      Tiled
        (char_width b)
        w
        (g.uwidth shape)
        (g.uheight shape)
        (lines_from g w b shape start_line)
        start_line
        0
        bottom
        v.lines
  pub inside : bottom ≤ g.uheight shape
  pub check : _internal_check v ≡ ok tt

shows_buffer :
    {g : Geo} {x : Texts} {f : FileTypes} (w : ℕ → ℕ) (b : Buffer x f) (shape : g.U16Rect)
    (start_line : ℕ) (v : Viewport g) {r : Outcome (ViewportLineRange × Map LineViewport)}
    → (d : Displays g w b shape start_line r) → 0 < g.uheight shape
    → g.uheight shape + 1 < u16_mod
    → start_line < len_lines b
    → v.start_line_idx ≡ start_line
    → v.end_line_idx ≡ start_line + length d.shown
    → v.lines ≡ d.shown
    → ShowsBuffer w b shape start_line v
shows_buffer {g} {x} w b shape start_line v d ph sh some_line es ee el =
    let cw = char_width b in
    let width = g.uwidth shape in
    let height = g.uheight shape in
    let ls = lines_from g w b shape start_line in
    let tiled : Tiled cw w width height ls start_line 0 d.bottom v.lines = rw el d.tiled in
    let n = length-drop start_line (x.lines b.rope) in
    let pos =
      some_shown cw w width height ls start_line d.bottom v.lines tiled (rw el d.ends)
        (omega (arith, n)) ph in
    let tiled' : Tiled cw w width height ls v.start_line_idx 0 d.bottom v.lines = rw es tiled in
    record {
      bottom = d.bottom;
      starts = es;
      ends = rw el ee;
      some_line = pos;
      tiled = tiled;
      inside = d.inside;
      check =
          check_lem cw w width height v ls d.bottom tiled' (rw (el, es) ee) pos
            (omega (arith, d.inside));
    }

-- Synchronizing with the first column of a line of the buffer, under the conditions of
-- `from_top_left-Displays`: it returns, the viewport shows the buffer from that line on, one line below the
-- other without a gap, and it passes the check of its invariants, so that each getter returns.
pub sync_from_top_left-ShowsBuffer :
    {g : Geo} {x : Texts} {f : FileTypes} (w : ℕ → ℕ) (b : Buffer x f) (v : Viewport g)
    (start_line : ℕ)
    → 0 < g.uwidth v.actual_shape
    → g.uwidth v.actual_shape < u16_mod
    → 0 < g.uheight v.actual_shape
    → g.uheight v.actual_shape + 1 < u16_mod
    → start_line < len_lines b
    → AllLinesWide
        (char_width b)
        w
        (g.uwidth v.actual_shape)
        (lines_from g w b v.actual_shape start_line)
    → (v.options.wrap ≡ false) ⊎ (v.options.line_break ≡ false)
    → (v' : Viewport g) × (sync_from_top_left b start_line 0 v ≡ ok v')
      × ShowsBuffer w b v.actual_shape start_line v'
unfolding sync_from_top_left
sync_from_top_left-ShowsBuffer {g} {x} w b v start_line pw sw ph sh inside wide modes =
    let d =
      from_top_left-Displays g w b v.actual_shape start_line v.options pw sw ph sh (omega arith)
        wide modes in
    let v' : Viewport g = record v {
      start_line_idx = start_line;
      end_line_idx = start_line + length d.shown;
      lines = d.shown;
    } in
    (
      v',
      rw d.returns refl,
      shows_buffer w b v.actual_shape start_line v' d ph sh inside refl refl refl,
    )

-- Making a viewport, under the conditions of `from_top_left-Displays` for the first line of the buffer: it
-- returns, no assertion fails, the viewport shows the buffer from its first line on, and it passes the
-- check of its invariants.
pub new-ShowsBuffer :
    (g : Geo) {x : Texts} {f : FileTypes} (w : ℕ → ℕ) (b : Buffer x f) (shape : g.U16Rect)
    (options : ViewportOptions)
    → 0 < g.uwidth shape
    → g.uwidth shape < u16_mod
    → 0 < g.uheight shape
    → g.uheight shape + 1 < u16_mod
    → AllLinesWide (char_width b) w (g.uwidth shape) (x.lines b.rope)
    → (options.wrap ≡ false) ⊎ (options.line_break ≡ false)
    → (v : Viewport g) × (new options b shape ≡ ok v) × ShowsBuffer w b shape 0 v
unfolding new
new-ShowsBuffer g {x} w b shape options pw sw ph sh wide modes =
    let d = from_top_left-Displays g w b shape 0 options pw sw ph sh (omega arith) wide modes in
    let c =
      new_cursor_lem (char_width b) w (g.uwidth shape) (g.uheight shape) (x.lines b.rope) 0 d.bottom
        d.shown d.tiled in
    let v : Viewport g = record {
      options = options;
      actual_shape = shape;
      start_line_idx = 0;
      end_line_idx = 0 + length d.shown;
      lines = d.shown;
      cursor = c.0;
    } in
    (
      v,
      rw d.returns (rw c.1 refl),
      shows_buffer w b shape 0 v d ph sh (x.some_line b.rope) refl refl refl,
    )

-- A window without rows or columns: its viewport is made, and then the check of the invariants fails,
-- also where only `is_empty` is asked for.
pub new_zero_sized :
    (g : Geo) {x : Texts} {f : FileTypes} (b : Buffer x f) (shape : g.U16Rect)
    (options : ViewportOptions)
    → (g.uheight shape ≡ 0) ⊎ (g.uwidth shape ≡ 0)
    → (v : Viewport g) × (new options b shape ≡ ok v) × (is_empty v ≡ panic)
unfolding new from_top_left new_cursor Rows.is_empty _internal_check is_empty
new_zero_sized g b shape options zero_sized =
    let v : Viewport g = record {
      options = options;
      actual_shape = shape;
      start_line_idx = 0;
      end_line_idx = 0;
      lines = [];
      cursor = top_left;
    } in
    (v, ground (arith, zero_sized), refl)
