-- ===== src/Window/Content/Region.antt =====
-- Writes inside a rectangle of a frame.
use rsvim.Prelude.{
  ℕ, ◌+◌, ◌*◌, ◌≤◌, ◌<◌, ◌≡◌, refl, ◌∙◌, ap, ◌⊎◌, List, length-replicate, replicate, get_elem?, ok,
  arith,
}
use native.Mathlib.Decide.{dec_lt}
use rsvim.Cart.{U16Pos, u16_mod, add_u16}
use rsvim.Canvas.Cell.{Crossterm, Cell}
use rsvim.Canvas.Cell
use rsvim.Canvas.Iframe
use rsvim.Canvas.Iframe.{Iframe, pos2idx}
use rsvim.Canvas.Iframe.Valid.{IsValid, Inside}
use rsvim.Canvas.Iframe.Write.{set_cell-Writes}
use rsvim.Canvas.Iframe.Region.{try_set_cells_at-Replaces}
use rsvim.Canvas.Frame
use rsvim.Canvas.Frame.{Frame}
use rsvim.Window.Content.{point_at, put_fills, put_some_fills}

-- The position does not lie in the rectangle.
abbrev pub IsOutside : U16Pos → ℕ → ℕ → U16Pos → Type 0
IsOutside upos width height p =
    ((p.x < upos.x) ⊎ (upos.x + width ≤ p.x)) ⊎ ((p.y < upos.y) ⊎ (upos.y + height ≤ p.y))

-- An index in a run that does not leave its row belongs to the row, and to a column of the run.
in_run :
    (w x y n px py : ℕ)
    → x + n ≤ w
    → px < w
    → y * w + x ≤ py * w + px
    → py * w + px < y * w + x + n
    → (py ≡ y) × (x ≤ px) × (px < x + n)
in_run w x y n px py hn hp ge lt = elim (dec_lt py y) [
  | yes above ↦ let far : (py + 1) * w ≤ y * w = grind arith in absurd (omega arith)
  | no ge_y ↦ elim (dec_lt y py) [
    | yes below ↦ let far : (y + 1) * w ≤ py * w = grind arith in absurd (omega arith)
    | no le_y ↦
        let same : py ≡ y = omega arith in
        let index : py * w ≡ y * w = ap (λ r. r * w) same in (same, omega arith, omega arith)
  ]
]

run_bounds :
    (w h x y n : ℕ) → x < w → x + n ≤ w → y < h → (y * w + x < h * w) × (y * w + x + n ≤ h * w)
run_bounds w h x y n hx hn hy =
    let far : (y + 1) * w ≤ h * w = grind arith in (omega arith, omega arith)

module _ {s : Crossterm} (upos : U16Pos) (width height : ℕ) where
  -- The frame is valid, and the rectangle lies in it.
  pub record InFrame (f : Frame s) : Type 0 where
    pub valid : IsValid f.iframe
    pub right : upos.x + width ≤ f.iframe.size.width
    pub below : upos.y + height ≤ f.iframe.size.height
    pub small_width : f.iframe.size.width < u16_mod
    pub small_height : f.iframe.size.height + 1 < u16_mod

  -- Nothing but the rectangle changed, and the frame stays valid.
  pub record Keeps (f f' : Frame s) : Type 0 where
    pub valid : IsValid f'.iframe
    pub size : f'.iframe.size ≡ f.iframe.size
    pub cursor : f'.cursor ≡ f.cursor
    pub others :
        (p : U16Pos)
        → Inside f.iframe p
        → IsOutside upos width height p
        → get_elem? f'.iframe.cells (pos2idx f.iframe p)
          ≡ get_elem? f.iframe.cells (pos2idx f.iframe p)

  pub Keeps-refl : (f : Frame s) → InFrame f → Keeps f f
  Keeps-refl f h = record {
    valid = h.valid;
    size = refl;
    cursor = refl;
    others = λ p inside outside. refl;
  }

  pub Keeps-trans : (f f' f'' : Frame s) → Keeps f f' → Keeps f' f'' → Keeps f f''
  unfolding pos2idx
  Keeps-trans f f' f'' h k = record {
    valid = k.valid;
    size = k.size ∙ h.size;
    cursor = k.cursor ∙ h.cursor;
    others = λ p inside outside.
        let inside' : Inside f'.iframe p = ground (arith, h.size) in
        ground (arith, h.others p inside outside, k.others p inside' outside, h.size);
  }

  pub Keeps-InFrame : (f f' : Frame s) → InFrame f → Keeps f f' → InFrame f'
  Keeps-InFrame f f' h k = record {
    valid = k.valid;
    right = ground (arith, h.right, k.size);
    below = ground (arith, h.below, k.size);
    small_width = ground (arith, h.small_width, k.size);
    small_height = ground (arith, h.small_height, k.size);
  }

  point_at_lem :
      (f : Frame s) (col row : ℕ)
      → InFrame f
      → col < width
      → row < height
      → point_at upos col row ≡ ok (record { x = col + upos.x; y = row + upos.y })
  unfolding point_at add_u16
  point_at_lem f col row h hc hr = ground (arith, h.right, h.below, h.small_width, h.small_height)

  -- A cell that is set inside the rectangle.
  pub set_cell-Keeps :
      (f : Frame s) (col row : ℕ) (cell : Cell s)
      → InFrame f
      → col < width
      → row < height
      → (pos : U16Pos) × (point_at upos col row ≡ ok pos)
        × (r : Frame s × Cell s) × (Frame.set_cell f pos cell ≡ ok r)
        × Keeps f r.0
  unfolding Frame.set_cell pos2idx
  set_cell-Keeps f col row cell h hc hr =
      let pos : U16Pos = record { x = col + upos.x; y = row + upos.y } in
      let inside : Inside f.iframe pos = (omega (arith, h.right), omega (arith, h.below)) in
      let w = set_cell-Writes f.iframe pos cell h.valid inside in
      (
        pos,
        point_at_lem f col row h hc hr,
        (record f { iframe = w.after }, w.old),
        rw w.returns refl,
        record {
          valid = w.valid;
          size = w.size;
          cursor = refl;
          others = λ p hp outside. ground (
            arith,
            w.placed (pos2idx f.iframe p),
            in_run f.iframe.size.width pos.x pos.y 1 p.x p.y (omega (arith, inside.0)) hp.0,
            outside,
          );
        },
      )

  -- A run of cells inside a row of the rectangle.
  pub put_fills-Keeps :
      (f : Frame s) (c n col row : ℕ)
      → InFrame f
      → col < width
      → col + n ≤ width
      → row < height
      → (f' : Frame s) × (put_fills upos c n col row f ≡ ok f') × Keeps f f'
  unfolding put_fills Frame.set_cells_at Iframe.set_cells_at pos2idx
  put_fills-Keeps f c n col row h hc hn hr =
      let pos : U16Pos = record { x = col + upos.x; y = row + upos.y } in
      let cells : List (Cell s) = replicate n (Cell.with_char c) in
      let w = f.iframe.size.width in
      let len = length-replicate n (Cell.with_char {s = s} c) in
      let bounds =
        run_bounds w f.iframe.size.height pos.x pos.y n (omega (arith, h.right))
          (omega (arith, h.right)) (omega (arith, h.below)) in
      let r =
        try_set_cells_at-Replaces f.iframe pos cells h.valid h.small_width h.small_height
          (omega (arith, bounds.0, h.valid.cells)) (omega (arith, bounds.1, h.valid.cells, len)) in
      (
        record f { iframe = r.after },
        rw (point_at_lem f col row h hc hr) (rw r.returns refl),
        record {
          valid = r.valid;
          size = r.size;
          cursor = refl;
          others = λ p hp outside. ground (
            arith,
            r.placed (pos2idx f.iframe p),
            len,
            in_run w pos.x pos.y n p.x p.y (omega (arith, h.right)) hp.0,
            outside,
          );
        },
      )

  pub put_some_fills-Keeps :
      (f : Frame s) (c n col row : ℕ)
      → InFrame f
      → col + n ≤ width
      → row < height
      → (f' : Frame s) × (put_some_fills upos c n col row f ≡ ok (f', col + n)) × Keeps f f'
  unfolding put_some_fills add_u16
  put_some_fills-Keeps f c n col row h hn hr = elim (dec_lt 0 n) [
    | yes some_fills ↦
        let (f', e, k) = put_fills-Keeps f c n col row h (omega arith) hn hr in
        (f', ground (arith, e, h.right, h.small_width), k)
    | no no_fills ↦ (f, ground arith, Keeps-refl f h)
  ]
