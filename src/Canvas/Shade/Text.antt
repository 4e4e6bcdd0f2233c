-- ===== src/Canvas/Shade/Text.antt =====
-- The text of a run, code point by code point, for cells that hold one code point at most.
use rsvim.Prelude.{
  ℕ, suc, ◌+◌, ◌-◌, ◌*◌, ◌≤◌, ◌<◌, ◌≡◌, refl, sym, ◌∙◌, List, [], ◌∷◌, map, length, get_elem?, some,
  take, drop, length-take, length-drop, length-map, get_elem?-map, get_elem?-map_inv,
  get_elem?-take, get_elem?-drop, arith, ap, get_elem?-some-lt,
}
use rsvim.Canvas.Cell.{Crossterm, Cell, Symbol, space_code}
use rsvim.Canvas.Iframe.{pos2idx}
use rsvim.Canvas.Diff.{Canvas, size, join, symbol_or_space}
use rsvim.Canvas.Diff.Ready.{IsReady, at, run_text}

-- What a cell shows: its code point, or a space.
abbrev pub glyph_of : Symbol → ℕ
glyph_of [] = space_code
glyph_of (c ∷ cs) = c

single_symbol :
    (symbol : Symbol) → length symbol ≤ 1 → symbol_or_space symbol ≡ glyph_of symbol ∷ []
single_symbol [] h = refl
single_symbol (c ∷ []) h = refl
single_symbol (c ∷ d ∷ cs) h = absurd (omega arith)

module _ {s : Crossterm} where
  -- Every cell holds one code point at most, and shows one for which `P` holds.
  abbrev pub IsSingle : (ℕ → Type 0) → List (Cell s) → Type 0
  IsSingle P cells =
      (i : ℕ) (c : Cell s)
      → get_elem? cells i ≡ some c
      → (length c.symbol ≤ 1) × P (glyph_of c.symbol)

  join-map_single :
      (P : ℕ → Type 0) (cells : List (Cell s))
      → IsSingle P cells
      → join (map (λ c. symbol_or_space c.symbol) cells) ≡ map (λ c. glyph_of c.symbol) cells
  unfolding join
  join-map_single P [] h = refl
  join-map_single P (c ∷ cs) h =
      rw (single_symbol c.symbol (h 0 c refl).0)
        (ap (◌∷◌ (glyph_of c.symbol)) (join-map_single P cs (λ i d e. h (suc i) d e)))

  module _ (P : ℕ → Type 0) (can : Canvas s) (row a b : ℕ) (r : IsReady can)
      (single : IsSingle P can.frame.iframe.cells) (hr : row < (size can).height)
      (hb : b ≤ (size can).width) where
    abbrev run_cells : List (Cell s)
    run_cells = take (b - a) (drop (pos2idx can.frame.iframe (at row a)) can.frame.iframe.cells)

    get_elem?-run_cells :
        (i : ℕ)
        → i < b - a
        → get_elem? run_cells i
          ≡ get_elem? can.frame.iframe.cells (pos2idx can.frame.iframe (at row (a + i)))
    unfolding pos2idx
    get_elem?-run_cells i h = ground (
      arith,
      get_elem?-take (b - a) (drop (row * can.frame.iframe.size.width + a) can.frame.iframe.cells)
          i,
      get_elem?-drop (row * can.frame.iframe.size.width + a) can.frame.iframe.cells i,
    )

    length-run_cells : a ≤ b → length run_cells ≡ b - a
    unfolding pos2idx
    length-run_cells h =
        let start = row * can.frame.iframe.size.width + a in
        let fits : row * (size can).width + b ≤ (size can).height * (size can).width =
          grind arith in
        omega (
          arith,
          r.frame.cells,
          length-take (b - a) (drop start can.frame.iframe.cells),
          length-drop start can.frame.iframe.cells,
        )

    run_cells-IsSingle : a ≤ b → IsSingle P run_cells
    run_cells-IsSingle h i c e =
        let lt : i < b - a = omega (arith, get_elem?-some-lt run_cells i e, length-run_cells h) in
        single (pos2idx can.frame.iframe (at row (a + i))) c (sym (get_elem?-run_cells i lt) ∙ e)

    run_text-map : a ≤ b → run_text can row a b ≡ map (λ c. glyph_of c.symbol) run_cells
    unfolding run_text
    run_text-map h = join-map_single P run_cells (run_cells-IsSingle h)

    pub length-run_text : a ≤ b → length (run_text can row a b) ≡ b - a
    length-run_text h =
        rw (run_text-map h) (length-map (λ c. glyph_of c.symbol) run_cells ∙ length-run_cells h)

    -- Every code point of the text is one that `P` holds for.
    pub run_text-All : a ≤ b → (j : ℕ) (g : ℕ) → get_elem? (run_text can row a b) j ≡ some g → P g
    run_text-All h j g e =
        let (c, ec, eg) =
          get_elem?-map_inv (λ c. glyph_of c.symbol) run_cells j (rw (run_text-map h) at e) in
        rw eg (run_cells-IsSingle h j c ec).1

    -- The text shows the cells of its columns, one after the other.
    pub get_elem?-run_text :
        a ≤ b
        → (i : ℕ) → i < b - a
        → (c : Cell s)
        → get_elem? can.frame.iframe.cells (pos2idx can.frame.iframe (at row (a + i))) ≡ some c
        → get_elem? (run_text can row a b) i ≡ some (glyph_of c.symbol)
    get_elem?-run_text h i lt c e =
        rw (run_text-map h)
          (get_elem?-map (λ c. glyph_of c.symbol) run_cells i (get_elem?-run_cells i lt ∙ e))
