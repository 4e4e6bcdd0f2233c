-- ===== src/Canvas/Iframe/Index.antt =====
-- The two ways between a position and an index of the vector.
use rsvim.Prelude.{ℕ, ◌+◌, ◌*◌, ◌/◌, ◌%◌, ◌<◌, ◌≡◌, ap, length, ok, arith}
use native.Mathlib.Nat.{div-eq_of_lt-le, div-add-mod', mod-lt, div-lt_iff_lt-mul}
use rsvim.Cart.{U16Pos, u16_mod}
use rsvim.Canvas.Cell.{Crossterm}
use rsvim.Canvas.Iframe.{Iframe, idx2pos, pos2idx}
use rsvim.Canvas.Iframe.Valid.{IsValid, Inside}

div-index : (w x y : ℕ) → x < w → (y * w + x) / w ≡ y
div-index w x y h = div-eq_of_lt-le w (omega arith) (grind arith)

mod-index : (w x y : ℕ) → x < w → (y * w + x) % w ≡ x
mod-index w x y h =
    let d = div-index w x y h in omega (arith, div-add-mod' (y * w + x) w, ap (λ (t : ℕ). t * w) d)

module _ {s : Crossterm} (f : Iframe s) where
  -- Two positions of the frame with one index are the same.
  pub pos2idx_inj :
      (p q : U16Pos) → p.x < f.size.width → q.x < f.size.width → pos2idx f p ≡ pos2idx f q → p ≡ q
  unfolding pos2idx
  pos2idx_inj p q hp hq e = ground (
    arith,
    mod-index f.size.width p.x p.y hp,
    mod-index f.size.width q.x q.y hq,
    div-index f.size.width p.x p.y hp,
    div-index f.size.width q.x q.y hq,
  )

  -- In a valid frame of fewer than 65536 columns and rows, the index of a position inside the frame
  -- converts back to the position.
  pub idx2pos-pos2idx :
      (p : U16Pos)
      → IsValid f
      → f.size.width < u16_mod
      → f.size.height < u16_mod
      → Inside f p
      → idx2pos f (pos2idx f p) ≡ ok p
  unfolding idx2pos pos2idx
  idx2pos-pos2idx p v hw hh h =
      let lt : p.y * f.size.width + p.x < f.size.height * f.size.width = grind arith in
      ground
        (arith, v.cells, mod-index f.size.width p.x p.y h.0, div-index f.size.width p.x p.y h.0)

  -- In a valid frame of fewer than 65536 columns and rows, an index of the vector converts to a
  -- position inside the frame, whose index it is.
  pub pos2idx-idx2pos :
      (i : ℕ)
      → IsValid f
      → f.size.width < u16_mod
      → f.size.height < u16_mod
      → i < length f.cells
      → (p : U16Pos) × (idx2pos f i ≡ ok p) × (pos2idx f p ≡ i) × Inside f p
  unfolding idx2pos pos2idx
  pos2idx-idx2pos i v hw hh h =
      let w = f.size.width in
      let bound : i < f.size.height * w = omega (arith, v.cells) in
      let pos : 0 < w = grind arith in
      let col : i % w < w = mod-lt i pos in
      let row : i / w < f.size.height = (div-lt_iff_lt-mul pos).1 bound in
      (record { x = i % w; y = i / w }, ground arith, div-add-mod' i w, (col, row))
