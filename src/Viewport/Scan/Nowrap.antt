-- ===== src/Viewport/Scan/Nowrap.antt =====
-- A line without wrapping: the loop fills one row, as far as the characters fit.
use rsvim.Prelude.{
  ℕ, ◌+◌, ◌-◌, ◌≤◌, ◌<◌, ◌≡◌, refl, ap, ◌⊎◌, inl, inr, ◌==◌, ◌||◌, leb, if◌then◌else◌, List, [],
  ◌∷◌, ◌++◌, length, arith, Outcome, ok, ◌>>=◌,
}
use mathlib.Core.List.{append_assoc}
use mathlib.Core.Path.{subst}
use native.Mathlib.Decide.{dec_lt}
use rsvim.Cart.{u16_mod}
use rsvim.Viewport.Scan.{
  Scan, Flow, next, stop, start, begin, put_row, sub_usize, scan_chars, nowrap_char, nowrap_line,
}
use rsvim.Viewport.Scan.Tiles.{
  sum, cells, row_of, IsFull, Begins, Begins-snoc, AllWide, in_row, sum_snoc, length_snoc,
  advance-in_row,
}

module _ (char_width : ℕ → Outcome ℕ) (w : ℕ → ℕ) (width height : ℕ) where
  -- The loop returned: `text` is the run that it put into the row `wrow`, and the rest.
  pub record Cuts (text : List ℕ) (wrow i d : ℕ) (r : Outcome Scan) : Type 0 where
    pub run : List ℕ
    pub rest : List ℕ
    pub after : Scan
    pub returns : r ≡ ok after
    pub split : text ≡ run ++ rest
    pub placed : after.rows ≡ (wrow, row_of w run i d) ∷ []
    pub pos_run : 0 < length run
    pub begins : Begins w width 0 run
    pub small : sum w run ≤ width
    pub full : IsFull w width run rest
    pub start_fills : after.start_fills ≡ 0
    pub end_fills : sum w run + after.end_fills ≤ width
    pub stays : after.wrow ≡ wrow

  module _ (len : ℕ) (small_width : width < u16_mod) where
    abbrev pub loop : List ℕ → ℕ → Scan → Outcome Scan
    loop = scan_chars (nowrap_char char_width width height 0 len)

    abbrev with_row : ℕ → ℕ → ℕ → List ℕ → Scan
    with_row wrow i d run = record (in_row w wrow i d run []) {
      rows = (wrow, row_of w run i d) ∷ [];
    }

    abbrev round : ℕ → ℕ → ℕ → List ℕ → ℕ → Outcome (Flow Scan)
    round wrow i d run c =
        nowrap_char char_width width height 0 len (i + length run) c (in_row w wrow i d run [])

    -- The row ends with `run`, which the next character does not fit behind.
    round_full :
        (wrow i d : ℕ) (run : List ℕ) (c : ℕ)
        → char_width c ≡ ok (w c)
        → sum w run ≤ width
        → width < sum w run + w c
        → round wrow i d run c
          ≡ ok (stop (record (with_row wrow i d run) { end_fills = width - sum w run }))
    unfolding nowrap_char begin sub_usize put_row
    round_full wrow i d run c ew small big = rw ew (ground arith)

    -- The character goes to the row, which ends there or does not.
    round_fits :
        (wrow i d : ℕ) (run : List ℕ) (c : ℕ)
        → char_width c ≡ ok (w c)
        → sum w run + w c ≤ width
        → round wrow i d run c
          ≡ ok (
              if i + length run + 1 == len || leb width (sum w (run ++ c ∷ []))
              then stop (with_row wrow i d (run ++ c ∷ []))
              else next (in_row w wrow i d (run ++ c ∷ []) []))
    unfolding nowrap_char begin put_row
    round_fits wrow i d run c ew small =
        rw ew (ground (arith, sum_snoc w run c, advance-in_row w wrow i d c run [] (omega arith)))

    round_stop :
        (wrow i d : ℕ) (run : List ℕ) (c : ℕ)
        → char_width c ≡ ok (w c)
        → sum w run + w c ≤ width
        → (i + length run + 1 ≡ len) ⊎ (sum w run + w c ≡ width)
        → round wrow i d run c ≡ ok (stop (with_row wrow i d (run ++ c ∷ [])))
    round_stop wrow i d run c ew small e =
        ground (arith, round_fits wrow i d run c ew small, sum_snoc w run c)

    round_next :
        (wrow i d : ℕ) (run : List ℕ) (c : ℕ)
        → char_width c ≡ ok (w c)
        → sum w run + w c < width
        → i + length run + 1 < len
        → round wrow i d run c ≡ ok (next (in_row w wrow i d (run ++ c ∷ []) []))
    round_next wrow i d run c ew small lt =
        ground (arith, round_fits wrow i d run c ew (omega arith), sum_snoc w run c)

    -- The last round put `run` into the row.
    cut :
        (run rest : List ℕ) (wrow i d n : ℕ) {r : Outcome Scan}
        → Begins w width 0 run
        → 0 < length run
        → sum w run + n ≤ width
        → IsFull w width run rest
        → r ≡ ok (record (with_row wrow i d run) { end_fills = n })
        → Cuts (run ++ rest) wrow i d r
    cut run rest wrow i d n begins pos small full er = record {
      run = run;
      rest = rest;
      after = record (with_row wrow i d run) { end_fills = n };
      returns = er;
      split = refl;
      placed = refl;
      pos_run = pos;
      begins = begins;
      small = omega arith;
      full = full;
      start_fills = refl;
      end_fills = small;
      stays = refl;
    }

    CutsRow : List ℕ → Type 0
    CutsRow cs =
        (wrow i d : ℕ) (run : List ℕ)
        → Begins w width 0 run
        → sum w run < width
        → i + length run + length cs ≡ len
        → 0 < length cs
        → Cuts (run ++ cs) wrow i d (loop cs (i + length run) (in_row w wrow i d run []))

    shifted :
        (run : List ℕ) (c : ℕ) (cs : List ℕ) {wrow i d : ℕ} {r : Outcome Scan}
        → Cuts ((run ++ c ∷ []) ++ cs) wrow i d r
        → Cuts (run ++ c ∷ cs) wrow i d r
    shifted run c cs {wrow} {i} {d} {r} v =
        subst (λ t. Cuts t wrow i d r) (append_assoc run (c ∷ []) cs) v

    long : (run : List ℕ) (c : ℕ) → width < sum w run + w c → w c ≤ width → 0 < length run
    unfolding sum
    long [] c big fit = absurd (omega arith)
    long (a ∷ run) c big fit = omega arith

    cuts : (cs : List ℕ) → AllWide w char_width width cs → CutsRow cs
    unfolding CutsRow scan_chars
    cuts [] all wrow i d run bs lt e pos = absurd (omega arith)
    cuts (c ∷ cs) ((ew, fit), all) wrow i d run bs lt e pos =
        elim (dec_lt width (sum w run + w c)) [
          | yes big ↦
              cut run (c ∷ cs) wrow i d (width - sum w run) bs (long run c big fit) (omega arith)
                (inr big) (rw (round_full wrow i d run c ew (omega arith) big) refl)
          | no small ↦ shifted run c cs (
              cuts_fits cs wrow i d run c ew (Begins-snoc w width 0 run c bs (omega arith))
                (omega arith) e (cuts cs all))
        ]
      where
        cuts_fits :
            (cs : List ℕ) (wrow i d : ℕ) (run : List ℕ) (c : ℕ)
            → char_width c ≡ ok (w c)
            → Begins w width 0 (run ++ c ∷ [])
            → sum w run + w c ≤ width
            → i + length run + length (c ∷ cs) ≡ len
            → CutsRow cs
            → Cuts
                ((run ++ c ∷ []) ++ cs)
                wrow
                i
                d
                (loop (c ∷ cs) (i + length run) (in_row w wrow i d run []))
        cuts_fits [] wrow i d run c ew bs small e go =
            cut (run ++ c ∷ []) [] wrow i d 0 bs (omega (arith, length_snoc w run c))
              (omega (arith, sum_snoc w run c)) tt
              (rw (round_stop wrow i d run c ew small (inl (omega arith))) refl)
        cuts_fits (c' ∷ cs) wrow i d run c ew bs small e go =
            elim (dec_lt (sum w run + w c) width) [
              | yes lt ↦ rw (round_next wrow i d run c ew lt (omega arith)) (
                  subst
                    (λ j.
                      Cuts ((run ++ c ∷ []) ++ c' ∷ cs) wrow i d
                        (loop (c' ∷ cs) j (in_row w wrow i d (run ++ c ∷ []) [])))
                    (omega (arith, length_snoc w run c))
                    (go wrow i d (run ++ c ∷ []) bs (omega (arith, sum_snoc w run c))
                      (omega (arith, length_snoc w run c)) (omega arith)))
              | no ge ↦
                  cut (run ++ c ∷ []) (c' ∷ cs) wrow i d 0 bs (omega (arith, length_snoc w run c))
                    (omega (arith, sum_snoc w run c)) (inl (omega (arith, sum_snoc w run c)))
                    (rw (round_stop wrow i d run c ew small (inr (omega arith))) refl)
            ]

-- The round of the first character starts the row.
nowrap_char_first :
    (char_width : ℕ → Outcome ℕ) (w : ℕ → ℕ) (width height len c wrow : ℕ)
    → char_width c ≡ ok (w c)
    → nowrap_char char_width width height 0 len 0 c (in_row w wrow 0 0 [] [])
      ≡ nowrap_char char_width width height 0 len 0 c (start wrow)
unfolding nowrap_char begin sub_usize start sum cells
nowrap_char_first char_width w width height len c wrow ew = rw ew (ground arith)

-- A nonempty line, shown from its first column, whose characters are no wider than the window: the loop
-- without wrapping returns, without a panic, and leaves the row where it is. The line is split into a
-- run and a rest; the only row holds the run with its columns, and it ends where it is full or the next
-- character does not fit, and only there.
pub nowrap_line_lem :
    (char_width : ℕ → Outcome ℕ) (w : ℕ → ℕ) (width height : ℕ) (line : List ℕ) (wrow : ℕ)
    → 0 < width
    → width < u16_mod
    → 0 < length line
    → AllWide w char_width width line
    → Cuts char_width w width height line wrow 0 0 (nowrap_line char_width width height 0 line wrow)
unfolding nowrap_line scan_chars sum CutsRow
nowrap_line_lem char_width w width height [] wrow pos_width small_width pos all =
    absurd (omega arith)
nowrap_line_lem char_width w width height (c ∷ cs) wrow pos_width small_width pos all =
    let len = length (c ∷ cs) in
    let first = nowrap_char_first char_width w width height len c wrow all.0.0 in
    subst (Cuts char_width w width height (c ∷ cs) wrow 0 0)
      (ap
        (λ r. r >>= λ f. elim f [
          | next s ↦ loop char_width w width height len small_width cs 1 s
          | stop s ↦ ok s
        ])
        first)
      (cuts char_width w width height len small_width (c ∷ cs) all wrow 0 0 [] tt pos_width
        (omega arith) pos)
