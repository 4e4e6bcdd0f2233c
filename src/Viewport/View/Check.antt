-- ===== src/Viewport/View/Check.antt =====
-- The check of the invariants passes on lines that show the lines of a buffer one below the other.
use rsvim.Prelude.{
  ℕ, ◌+◌, ◌≤◌, ◌<◌, ◌≡◌, refl, List, [], ◌∷◌, length, arith, Map, Option, some, none, Outcome, ok,
  last_key_value,
}
use mathlib.Core.Path.{subst}
use rsvim.Cart.{u16_mod, add_u16}
use rsvim.Viewport.Rows.{LineViewport}
use rsvim.Viewport.Scan.{sub_usize}
use rsvim.Viewport.Scan.Tiles.{sum, cells, row_of, rows_of}
use rsvim.Viewport.Sync.Lays.{Fit}
use rsvim.Viewport.Sync.Tiled.{Tiled}
use rsvim.Viewport.View.{
  check_next, check_next_row, check_same, check_chars, check_row, check_rows, check_lines,
}

-- The index before, if there is one.
abbrev pub IsPrev : Option ℕ → ℕ → Type 0
IsPrev none i = Unit
IsPrev (some k) i = k + 1 ≡ i

abbrev pub IsSame : Option ℕ → ℕ → Type 0
IsSame none i = Unit
IsSame (some k) i = k ≡ i

check_next_lem : (o : Option ℕ) (i : ℕ) → IsPrev o i → check_next o i ≡ ok tt
unfolding check_next
check_next_lem none i h = refl
check_next_lem (some k) i h = ground (arith, h)

check_same_lem : (o : Option ℕ) (i : ℕ) → IsSame o i → check_same o i ≡ ok tt
unfolding check_same
check_same_lem none i h = refl
check_same_lem (some k) i h = ground (arith, h)

check_next_row_lem : (o : Option ℕ) (i : ℕ) → i < u16_mod → IsPrev o i → check_next_row o i ≡ ok tt
unfolding check_next_row add_u16
check_next_row_lem none i lt h = refl
check_next_row_lem (some k) i lt h = ground (arith, h)

module _ (w : ℕ → ℕ) where
  check_chars_lem :
      (run : List ℕ) (i d : ℕ) (last_char last_dcol : Option ℕ)
      → IsPrev last_char i
      → IsSame last_dcol d
      → (p : Option ℕ × Option ℕ) × (check_chars (cells w run i d) last_char last_dcol ≡ ok p)
        × IsPrev p.0 (i + length run)
        × IsSame p.1 (d + sum w run)
  unfolding check_chars cells sum
  check_chars_lem [] i d lc ld hc hd =
      ((lc, ld), refl, subst (IsPrev lc) (omega arith) hc, subst (IsSame ld) (omega arith) hd)
  check_chars_lem (c ∷ cs) i d lc ld hc hd =
      let rest = check_chars_lem cs (i + 1) (d + w c) (some i) (some (d + w c)) refl refl in
      (
        rest.0,
        rw (check_next_lem lc i hc) (rw (check_same_lem ld d hd) rest.1),
        subst (IsPrev rest.0.0) (omega arith) rest.2,
        subst (IsSame rest.0.1) (omega arith) rest.3,
      )

  last_cell :
      (c : ℕ) (cs : List ℕ) (i d : ℕ)
      → (k : ℕ) × (last_key_value (cells w (c ∷ cs) i d)
          ≡ some (i + length cs, (k, d + sum w (c ∷ cs))))
  unfolding cells sum
  last_cell c [] i d = (d, ground arith)
  last_cell c (c' ∷ cs) i d =
      let r = last_cell c' cs (i + 1) (d + w c) in (r.0, ground (arith, r.1))

  check_row_lem : (run : List ℕ) (i d : ℕ) → 0 < length run → check_row (row_of w run i d) ≡ ok tt
  unfolding check_row cells sum sub_usize
  check_row_lem [] i d pos = absurd (omega arith)
  check_row_lem (c ∷ cs) i d pos = let r = last_cell c cs i d in ground (arith, r.1)

  -- The rows of a line.
  check_rows_lem :
      (width : ℕ) (runs : List (List ℕ)) (r i d : ℕ) (last_row last_char last_dcol : Option ℕ)
      → Fit w width runs
      → r + length runs < u16_mod
      → IsPrev last_row r
      → IsPrev last_char i
      → IsSame last_dcol d
      → (o : Option ℕ) × (check_rows (rows_of w runs r i d) last_row last_char last_dcol ≡ ok o)
        × IsPrev o (r + length runs)
  unfolding check_rows rows_of
  check_rows_lem width [] r i d lr lc ld fit lt hr hc hd =
      (lr, refl, subst (IsPrev lr) (omega arith) hr)
  check_rows_lem width (run ∷ runs) r i d lr lc ld (begins, pos, small, fit) lt hr hc hd =
      let chars = check_chars_lem run i d lc ld hc hd in
      let rest =
        check_rows_lem width runs (r + 1) (i + length run) (d + sum w run) (some r) (chars.0.0)
          (chars.0.1) fit (omega arith) refl chars.2 chars.3 in
      (
        rest.0,
        rw (check_next_row_lem lr r (omega arith) hr)
            (rw (check_row_lem run i d pos) (rw chars.1 rest.1)),
        subst (IsPrev rest.0) (omega arith) rest.2,
      )

module _ (char_width : ℕ → Outcome ℕ) (w : ℕ → ℕ) (width height : ℕ) where
  pub bottom_ge :
      (ls : List (List ℕ)) (l r bottom : ℕ) (m : Map LineViewport)
      → Tiled char_width w width height ls l r bottom m
      → r ≤ bottom
  bottom_ge ls l r bottom [] h = omega arith
  bottom_ge [] l r bottom (e ∷ m) h = absurd h
  bottom_ge (line ∷ ls) l r bottom ((k, v) ∷ m) (e, inside, s, some_run, h) =
      omega (arith, bottom_ge ls (l + 1) (r + length s.runs) bottom m h)

  -- The lines.
  pub check_lines_lem :
      (ls : List (List ℕ)) (l r bottom : ℕ) (m : Map LineViewport) (last_line last_row : Option ℕ)
      → Tiled char_width w width height ls l r bottom m
      → bottom < u16_mod
      → IsPrev last_line l
      → IsPrev last_row r
      → check_lines m last_line last_row ≡ ok tt
  unfolding check_lines
  check_lines_lem ls l r bottom [] ll lr h lt hl hr = refl
  check_lines_lem [] l r bottom (e ∷ m) ll lr h lt hl hr = absurd h
  check_lines_lem (line ∷ ls) l r bottom ((k, v) ∷ m) ll lr (e, inside, s, some_run, h) lt hl hr =
      let below = bottom_ge ls (l + 1) (r + length s.runs) bottom m h in
      let rows = check_rows_lem w width s.runs r 0 0 lr none none s.fit (omega arith) hr tt tt in
      rw e (
        rw (check_next_lem ll l hl) (
          rw s.placed (
            rw rows.1 (
              check_lines_lem ls (l + 1) (r + length s.runs) bottom m (some l) rows.0 h lt refl
                rows.2))))
