-- ===== src/Viewport/Scan/Columns.antt =====
-- A line shown from a later column on.
use rsvim.Prelude.{
  ℕ, ◌+◌, ◌≤◌, ◌<◌, ◌≡◌, refl, false, ltb, if◌then◌else◌, List, [], ◌∷◌, length, arith, Outcome, ok,
  panic,
}
use native.Mathlib.Decide.{dec_lt}
use rsvim.Viewport.Scan.{
  Scan, Flow, next, start, begin, sub_usize, scan_chars, skip_char, nowrap_char, wrap_char,
  nowrap_line, wrap_line,
}
use rsvim.Viewport.Scan.Tiles.{sum, AllWide}

module _ (char_width : ℕ → Outcome ℕ) (w : ℕ → ℕ) (width height start_dcolumn len : ℕ) where
  -- A round before the first column to show: a character is skipped, or else the round panics.
  Skips : (ℕ → ℕ → Scan → Outcome (Flow Scan)) → Type 0
  Skips step =
      (i c : ℕ) (s : Scan)
      → char_width c ≡ ok (w c)
      → s.start_c_idx_init ≡ false
      → s.dcol < start_dcolumn
      → step i c s ≡ (
          if ltb (s.dcol + w c) start_dcolumn
          then ok (next (skip_char char_width width height start_dcolumn len i (w c) s))
          else panic)

  nowrap_char-Skips : Skips (nowrap_char char_width width height start_dcolumn len)
  unfolding Skips nowrap_char begin sub_usize
  nowrap_char-Skips i c s ew init lt = rw ew (ground (arith, init))

  wrap_char-Skips : Skips (wrap_char char_width width height start_dcolumn len)
  unfolding Skips wrap_char begin sub_usize
  wrap_char-Skips i c s ew init lt = rw ew (ground (arith, init))

  scan_chars_panic :
      (step : ℕ → ℕ → Scan → Outcome (Flow Scan)) (cs : List ℕ) (i : ℕ) (s : Scan) (limit : ℕ)
      → Skips step
      → AllWide w char_width limit cs
      → s.start_c_idx_init ≡ false
      → s.dcol < start_dcolumn
      → start_dcolumn ≤ s.dcol + sum w cs
      → scan_chars step cs i s ≡ panic
  unfolding Skips scan_chars sum skip_char
  scan_chars_panic step [] i s limit skips all init lt ge = absurd (omega arith)
  scan_chars_panic step (c ∷ cs) i s limit skips ((ew, fit), all) init lt ge =
      elim (dec_lt (s.dcol + w c) start_dcolumn) [
        | yes before ↦
            let s' = skip_char char_width width height start_dcolumn len i (w c) s in
            ground (
              arith,
              skips i c s ew init lt,
              scan_chars_panic step cs (i + 1) s' limit skips all init before (omega arith),
            )
        | no reached ↦ ground (arith, skips i c s ew init lt)
      ]

-- From a column after the first one on, with and without wrapping: a line that has this column, and whose
-- characters have widths, panics, whatever the window. The columns skipped so far are less than
-- `start_dcolumn`, which is subtracted from them.
pub start_dcolumn_panics :
    (char_width : ℕ → Outcome ℕ) (w : ℕ → ℕ) (width height start_dcolumn limit : ℕ) (line : List ℕ)
    (wrow : ℕ)
    → 0 < start_dcolumn
    → AllWide w char_width limit line
    → start_dcolumn ≤ sum w line
    → (nowrap_line char_width width height start_dcolumn line wrow ≡ panic)
      × (wrap_line char_width width height start_dcolumn line wrow ≡ panic)
unfolding nowrap_line wrap_line start
start_dcolumn_panics char_width w width height start_dcolumn limit line wrow pos all ge =
    let len = length line in
    (
      scan_chars_panic char_width w width height start_dcolumn len
          (nowrap_char char_width width height start_dcolumn len) line 0 (start wrow) limit
          (nowrap_char-Skips char_width w width height start_dcolumn len) all refl pos
          (omega arith),
      scan_chars_panic char_width w width height start_dcolumn len
          (wrap_char char_width width height start_dcolumn len) line 0 (start wrow) limit
          (wrap_char-Skips char_width w width height start_dcolumn len) all refl pos (omega arith),
    )
