-- ===== src/Viewport/Sync/Displays.antt =====
-- `from_top_left`, from the first column of a line on and without `line-break`: what the viewport shows.
use rsvim.Prelude.{
  ℕ, zero, suc, ◌+◌, ◌≤◌, ◌<◌, ◌≡◌, refl, ◌⊎◌, inl, inr, true, false, Bool-cases, List, [], ◌∷◌,
  length, drop, arith, Map, some, Outcome, ok,
}
use rsvim.Cart.{u16_mod}
use rsvim.Tree.Geo.{Geo}
use rsvim.Buf.Rope.{Texts, AreLines}
use rsvim.Buf.Buffer.{FileTypes, Buffer, len_lines, get_lines_at, char_width}
use rsvim.Viewport.Rows.{LineViewport, ViewportLineRange, ViewportOptions}
use rsvim.Viewport.Scan.{Scan, scan_chars, wrap_line, nowrap_line}
use rsvim.Viewport.Sync.{
  sync_lines, sync_buffer, from_top_left, _sync_from_top_left_nowrap,
  _sync_from_top_left_wrap_nolinebreak,
}
use rsvim.Viewport.Sync.Lays.{wrap_line-Lays, nowrap_line-Lays}
use rsvim.Viewport.Sync.Tiled.{AllLinesWide, Tiled, Synced, sync_lines_lem}

AreLines-drop : (n : ℕ) (ls : List (List ℕ)) → AreLines ls → AreLines (drop n ls)
AreLines-drop zero ls h = h
AreLines-drop (suc n) [] h = tt
AreLines-drop (suc n) (l ∷ []) h = AreLines-drop n [] tt
AreLines-drop (suc n) (l ∷ l' ∷ ls) h = AreLines-drop n (l' ∷ ls) h.1

module _ (g : Geo) {x : Texts} {f : FileTypes} (w : ℕ → ℕ) (b : Buffer x f) (shape : g.U16Rect)
    (start_line : ℕ) where
  -- The lines of the buffer from `start_line` on.
  abbrev pub lines_from : List (List ℕ)
  lines_from = drop start_line (x.lines b.rope)

  -- The synchronization returned: it shows all lines from `start_line` on, or as many as the window has
  -- rows for, one below the other from the top row on.
  pub record Displays (r : Outcome (ViewportLineRange × Map LineViewport)) : Type 0 where
    pub shown : Map LineViewport
    pub bottom : ℕ
    pub returns :
        r
        ≡ ok (
          record { start_line_idx = start_line; end_line_idx = start_line + length shown },
          shown,
        )
    pub tiled :
        Tiled
          (char_width b)
          w
          (g.uwidth shape)
          (g.uheight shape)
          lines_from
          start_line
          0
          bottom
          shown
    pub inside : bottom ≤ g.uheight shape
    pub ends : (length shown ≡ length lines_from) ⊎ (bottom ≡ g.uheight shape)

  module _ (pos_width : 0 < g.uwidth shape) (small_width : g.uwidth shape < u16_mod)
      (pos_height : 0 < g.uheight shape) (small_height : g.uheight shape + 1 < u16_mod)
      (in_buffer : start_line ≤ len_lines b)
      (wide : AllLinesWide (char_width b) w (g.uwidth shape) lines_from) where
    lines_at : get_lines_at b start_line ≡ some lines_from
    lines_at = ground (arith, x.get_lines_at_lem b.rope start_line)

    are_lines : AreLines lines_from
    are_lines = AreLines-drop start_line (x.lines b.rope) (x.lines-AreLines b.rope)

    displays :
        (r : Outcome (ViewportLineRange × Map LineViewport)) (line_scan : List ℕ → ℕ → Outcome Scan)
        → Synced
            (char_width b)
            w
            (g.uwidth shape)
            (g.uheight shape)
            lines_from
            start_line
            0
            []
            (sync_lines line_scan (g.uheight shape) lines_from 0 start_line [])
        → r ≡ sync_buffer line_scan (g.uheight shape) (get_lines_at b start_line) start_line
        → Displays r
    unfolding sync_buffer
    displays r line_scan v e = record {
      shown = v.shown;
      bottom = v.bottom;
      returns = rw e (rw lines_at (rw v.returns refl));
      tiled = v.tiled;
      inside = v.inside;
      ends = v.ends;
    }

    wrapped :
        (options : ViewportOptions)
        → options.wrap ≡ true
        → options.line_break ≡ false
        → Displays (from_top_left g options b shape start_line 0)
    unfolding from_top_left _sync_from_top_left_wrap_nolinebreak wrap_line scan_chars
    wrapped options ew el =
        let cw = char_width b in
        let width = g.uwidth shape in
        let height = g.uheight shape in
        displays (from_top_left g options b shape start_line 0) (wrap_line cw width height 0)
          (sync_lines_lem cw w width height (wrap_line cw width height 0) small_height
            (λ line r lt pos all.
              wrap_line-Lays w cw width height line r pos_width small_width small_height lt pos all)
            (λ r. refl) lines_from start_line 0 [] are_lines wide (omega arith) tt)
          (ground (arith, ew, el))

    nowrapped :
        (options : ViewportOptions)
        → options.wrap ≡ false
        → Displays (from_top_left g options b shape start_line 0)
    unfolding from_top_left _sync_from_top_left_nowrap nowrap_line scan_chars
    nowrapped options ew =
        let cw = char_width b in
        let width = g.uwidth shape in
        let height = g.uheight shape in
        displays (from_top_left g options b shape start_line 0) (nowrap_line cw width height 0)
          (sync_lines_lem cw w width height (nowrap_line cw width height 0) small_height
            (λ line r lt pos all.
              nowrap_line-Lays w cw width height line r pos_width small_width small_height lt pos
                all)
            (λ r. refl) lines_from start_line 0 [] are_lines wide (omega arith) tt)
          (ground (arith, ew))

-- Without `line-break` or without wrapping, from the first column of a line of the buffer on (or one past
-- the last line), in a window with at least one and fewer than 65535 rows, and at least one and fewer than
-- 65536 columns, and where every character from that line on has a width of at most that of the window: the synchronization returns. It shows the lines one below the
-- other without a gap, each with its first characters, in rows of at most the width of the window, and
-- ends with the last line of the buffer or with the last row of the window.
pub from_top_left-Displays :
    (g : Geo) {x : Texts} {f : FileTypes} (w : ℕ → ℕ) (b : Buffer x f) (shape : g.U16Rect)
    (start_line : ℕ) (options : ViewportOptions)
    → 0 < g.uwidth shape
    → g.uwidth shape < u16_mod
    → 0 < g.uheight shape
    → g.uheight shape + 1 < u16_mod
    → start_line ≤ len_lines b
    → AllLinesWide (char_width b) w (g.uwidth shape) (lines_from g w b shape start_line)
    → (options.wrap ≡ false) ⊎ (options.line_break ≡ false)
    → Displays g w b shape start_line (from_top_left g options b shape start_line 0)
from_top_left-Displays g w b shape start_line options pw sw ph sh inside wide modes =
    elim (Bool-cases options.wrap) [
      | inl e ↦
          wrapped g w b shape start_line pw sw ph sh inside wide options e
            (ground (arith, e, modes))
      | inr e ↦ nowrapped g w b shape start_line pw sw ph sh inside wide options e
    ]
