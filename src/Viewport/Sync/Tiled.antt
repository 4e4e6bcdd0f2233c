-- ===== src/Viewport/Sync/Tiled.antt =====
-- The loop over the lines: what it returns shows the lines of the buffer one below the other.
use rsvim.Prelude.{
  KeysBelow-snoc, ℕ, ◌+◌, ◌≤◌, ◌<◌, ◌≡◌, refl, sym, ◌∙◌, ap, ◌⊎◌, inl, inr, List, [], ◌∷◌, ◌++◌,
  length, arith, Map, KeysBelow, insert_ordered, insert_ordered_end, Outcome, ok, ◌>>=◌,
}
use mathlib.Core.List.{append-nil, append_assoc}
use native.Mathlib.Decide.{dec_lt}
use rsvim.Cart.{u16_mod, add_u16}
use rsvim.Buf.Rope.{AreLines}
use rsvim.Viewport.Rows.{LineViewport}
use rsvim.Viewport.Scan.{Scan, start}
use rsvim.Viewport.Scan.Tiles.{rows_of, AllWide}
use rsvim.Viewport.Sync.{sync_lines}
use rsvim.Viewport.Sync.Lays.{Shows, Lays, line_of}

module _ (char_width : ℕ → Outcome ℕ) (w : ℕ → ℕ) (width : ℕ) where
  -- Every character of a list of lines has its width, at most `width`.
  abbrev pub AllLinesWide : List (List ℕ) → Type 0
  AllLinesWide [] = Unit
  AllLinesWide (line ∷ ls) = AllWide w char_width width line × AllLinesWide ls

module _ (char_width : ℕ → Outcome ℕ) (w : ℕ → ℕ) (width height : ℕ) where
  -- The rows of the lines, one line below the other from the row `r` down to the row `bottom`; the lines
  -- count from `l`. Each line begins in the
  -- window, and only a line without characters has no row.
  abbrev pub Tiled : List (List ℕ) → ℕ → ℕ → ℕ → Map LineViewport → Type 0
  Tiled ls l r bottom [] = r ≡ bottom
  Tiled [] l r bottom (e ∷ m) = ⊥
  Tiled (line ∷ ls) l r bottom ((k, v) ∷ m) =
      (k ≡ l)
      × (r < height)
      × (s : Shows w width line r v) × ((0 < length s.runs) ⊎ (line ≡ []))
      × Tiled ls (l + 1) (r + length s.runs) bottom m

  -- The loop over the lines `ls` from the line `l` and the row `r` on returned: it shows all lines, or as
  -- many as the window has rows for.
  pub record Synced (ls : List (List ℕ)) (l r : ℕ) (lines : Map LineViewport)
      (result : Outcome (ℕ × Map LineViewport)) : Type 0 where
    pub shown : Map LineViewport
    pub bottom : ℕ
    pub returns : result ≡ ok (l + length shown, lines ++ shown)
    pub tiled : Tiled ls l r bottom shown
    pub inside : bottom ≤ height
    pub ends : (length shown ≡ length ls) ⊎ (bottom ≡ height)

module _ (char_width : ℕ → Outcome ℕ) (w : ℕ → ℕ) (width height : ℕ) where
  returned :
      {k k' : ℕ} {m m' : Map LineViewport}
      → k ≡ k'
      → m ≡ m'
      → ◌≡◌ {A = Outcome (ℕ × Map LineViewport)} (ok (k, m)) (ok (k', m'))
  returned {k} {k'} {m} {m'} ek em = ap (λ j. ok (j, m)) ek ∙ ap (λ n. ok (k', n)) em

  -- The loop ends here.
  Synced-end :
      (ls : List (List ℕ)) (l r : ℕ) (lines : Map LineViewport)
      {result : Outcome (ℕ × Map LineViewport)}
      → result ≡ ok (l, lines)
      → r ≤ height
      → (0 ≡ length ls) ⊎ (r ≡ height)
      → Synced char_width w width height ls l r lines result
  Synced-end ls l r lines e h ends = record {
    shown = [];
    bottom = r;
    returns = e ∙ returned (omega arith) (sym (append-nil lines));
    tiled = refl;
    inside = h;
    ends = ends;
  }

  -- One more line above those of the rest of the loop.
  Synced-line :
      (line : List ℕ) (ls : List (List ℕ)) (l r : ℕ) (lines : Map LineViewport) (v : LineViewport)
      (s : Shows w width line r v) {result result' : Outcome (ℕ × Map LineViewport)}
      → r < height
      → (0 < length s.runs) ⊎ (line ≡ [])
      → result' ≡ result
      → Synced char_width w width height ls
          (l + 1)
          (r + length s.runs)
          (lines ++ (l, v) ∷ [])
          result
      → Synced char_width w width height (line ∷ ls) l r lines result'
  Synced-line line ls l r lines v s lt some_run e rest = record {
    shown = (l, v) ∷ rest.shown;
    bottom = rest.bottom;
    returns =
        e ∙ rest.returns ∙ returned (omega arith) (append_assoc lines ((l, v) ∷ []) rest.shown);
    tiled = (refl, lt, s, some_run, rest.tiled);
    inside = rest.inside;
    ends = ground (arith, rest.ends);
  }

  AreLines-tail : (line : List ℕ) (ls : List (List ℕ)) → AreLines (line ∷ ls) → AreLines ls
  AreLines-tail line [] h = tt
  AreLines-tail line (l ∷ ls) h = h.1

  module _ (line_scan : List ℕ → ℕ → Outcome Scan) (small_height : height + 1 < u16_mod)
      (lays : (line : List ℕ) (r : ℕ)
        → r < height
        → 0 < length line
        → AllWide w char_width width line
        → Lays w width height line r (line_scan line r))
      (no_chars : (r : ℕ) → line_scan [] r ≡ ok (start r)) where
    abbrev step : Scan → List (List ℕ) → ℕ → Map LineViewport → Outcome (ℕ × Map LineViewport)
    step s ls l lines = do
      below ← add_u16 s.wrow 1
      sync_lines line_scan height ls below (l + 1) (insert_ordered l (line_of w s) lines)

    sync_lines_past :
        (ls : List (List ℕ)) (r l : ℕ) (lines : Map LineViewport)
        → height ≤ r
        → sync_lines line_scan height ls r l lines ≡ ok (l, lines)
    unfolding sync_lines
    sync_lines_past [] r l lines h = refl
    sync_lines_past (line ∷ ls) r l lines h = ground arith

    sync_lines-step :
        (line : List ℕ) (ls : List (List ℕ)) (r l : ℕ) (lines : Map LineViewport) {s : Scan}
        → r < height
        → line_scan line r ≡ ok s
        → sync_lines line_scan height (line ∷ ls) r l lines ≡ step s ls l lines
    unfolding sync_lines
    sync_lines-step line ls r l lines h e = rw e (ground arith)

    -- The next line goes below, or the window is full.
    step_below :
        (s : Scan) (ls : List (List ℕ)) (l r : ℕ) (lines : Map LineViewport)
        → KeysBelow l lines
        → s.wrow + 1 ≡ r
        → r ≤ height
        → step s ls l lines
          ≡ sync_lines line_scan height ls r (l + 1) (lines ++ (l, line_of w s) ∷ [])
    unfolding add_u16
    step_below s ls l r lines k e h =
        rw (insert_ordered_end l (line_of w s) lines k) (ground (arith, e))

    step_full :
        (s : Scan) (ls : List (List ℕ)) (l : ℕ) (lines : Map LineViewport)
        → KeysBelow l lines
        → s.wrow ≡ height
        → step s ls l lines ≡ ok (l + 1, lines ++ (l, line_of w s) ∷ [])
    unfolding add_u16
    step_full s ls l lines k e = rw (insert_ordered_end l (line_of w s) lines k) (
        ground (
          arith,
          e,
          sync_lines_past ls (height + 1) (l + 1) (lines ++ (l, line_of w s) ∷ []) (omega arith),
        ))

    -- The rest of the loop, where a line took `n` rows.
    step_ends :
        (s : Scan) (ls : List (List ℕ)) (l r n : ℕ) (lines : Map LineViewport)
        → KeysBelow l lines
        → ((s.wrow + 1 ≡ r + n) × (s.wrow < height)) ⊎ ((s.wrow ≡ height) × (r + n ≡ height))
        → (r + n ≤ height
            → KeysBelow (l + 1) (lines ++ (l, line_of w s) ∷ [])
            → Synced char_width w width height ls
                (l + 1)
                (r + n)
                (lines ++ (l, line_of w s) ∷ [])
                (sync_lines line_scan height ls (r + n) (l + 1) (lines ++ (l, line_of w s) ∷ [])))
        → Synced char_width w width height ls
            (l + 1)
            (r + n)
            (lines ++ (l, line_of w s) ∷ [])
            (step s ls l lines)
    step_ends s ls l r n lines k (inl (e, lt)) rest =
        rw (step_below s ls l (r + n) lines k e (omega arith))
          (rest (omega arith) (KeysBelow-snoc l (line_of w s) lines k))
    step_ends s ls l r n lines k (inr (e, en)) rest =
        Synced-end ls (l + 1) (r + n) (lines ++ (l, line_of w s) ∷ []) (step_full s ls l lines k e)
          (omega arith) (inr en)

    -- A line without characters, which is the last one, has no row.
    empty_line :
        (l r : ℕ) (lines : Map LineViewport)
        → r < height
        → KeysBelow l lines
        → Synced char_width w width height
            ([] ∷ [])
            l
            r
            lines
            (sync_lines line_scan height ([] ∷ []) r l lines)
    unfolding sync_lines rows_of start
    empty_line l r lines lt k =
        Synced-line [] [] l r lines (line_of w (start r))
          (record {
            runs = [];
            rest = [];
            split = refl;
            placed = refl;
            fit = tt;
            start_fills = refl;
            end_fills = omega arith;
          })
          lt (inr refl) (sync_lines-step [] [] r l lines lt (no_chars r))
          (Synced-end [] (l + 1) (r + 0) (lines ++ (l, line_of w (start r)) ∷ [])
            (step_below (start r) [] l (r + 1) lines k refl (omega arith)) (omega arith) (inl refl))

    pub sync_lines_lem :
        (ls : List (List ℕ)) (l r : ℕ) (lines : Map LineViewport)
        → AreLines ls
        → AllLinesWide char_width w width ls
        → r ≤ height
        → KeysBelow l lines
        → Synced char_width w width height ls l r lines (sync_lines line_scan height ls r l lines)
    unfolding sync_lines
    sync_lines_lem [] l r lines al wide h k = Synced-end [] l r lines refl h (inl refl)
    sync_lines_lem ([] ∷ []) l r lines al wide h k = elim (dec_lt r height) [
      | no ge ↦
          Synced-end ([] ∷ []) l r lines (sync_lines_past ([] ∷ []) r l lines (omega arith)) h
            (inr (omega arith))
      | yes lt ↦ empty_line l r lines lt k
    ]
    sync_lines_lem ([] ∷ l' ∷ ls) l r lines al wide h k = absurd (omega arith)
    sync_lines_lem ((c ∷ cs) ∷ ls) l r lines al (wide, all) h k = elim (dec_lt r height) [
      | no ge ↦
          Synced-end ((c ∷ cs) ∷ ls) l r lines
            (sync_lines_past ((c ∷ cs) ∷ ls) r l lines (omega arith)) h (inr (omega arith))
      | yes lt ↦
          let v = lays (c ∷ cs) r lt (omega arith) wide in
          let s = v.after in
          Synced-line (c ∷ cs) ls l r lines (line_of w s) v.shows lt (inl v.some_run)
            (sync_lines-step (c ∷ cs) ls r l lines lt v.returns)
            (step_ends s ls l r (length v.shows.runs) lines k v.ends (λ inside keys.
              sync_lines_lem ls (l + 1) (r + length v.shows.runs) (lines ++ (l, line_of w s) ∷ [])
                (AreLines-tail (c ∷ cs) ls al) all inside keys))
    ]
