-- ===== src/Tree/Geo.antt =====
-- The crates `geo` and `num_traits`: rectangles over `isize` and `u16`, and `abs_sub`. A rectangle is
-- made from two corners in any order, and keeps the smallest and the greatest coordinates.
use rsvim.Prelude.{ℕ, ◌-◌, ◌≤◌, min, max, ◌≡◌, ℤ, ◌-ℤ◌, ◌≤ℤ◌, min_ℤ, max_ℤ}
use rsvim.Cart.{U16Pos, IPos}

pub record Geo : Type 1 where
  -- `Rect<isize>`
  pub IRect : Type 0
  pub irect : IPos → IPos → IRect
  pub imin : IRect → IPos
  pub imax : IRect → IPos
  pub iwidth : IRect → ℤ
  pub iheight : IRect → ℤ
  pub imin_irect : (a b : IPos) → imin (irect a b) ≡ record { x = min_ℤ a.x b.x; y = min_ℤ a.y b.y }
  pub imax_irect : (a b : IPos) → imax (irect a b) ≡ record { x = max_ℤ a.x b.x; y = max_ℤ a.y b.y }
  pub imin-imax : (r : IRect) → ((imin r).x ≤ℤ (imax r).x) × ((imin r).y ≤ℤ (imax r).y)
  pub iwidth_lem : (r : IRect) → iwidth r ≡ (imax r).x -ℤ (imin r).x
  pub iheight_lem : (r : IRect) → iheight r ≡ (imax r).y -ℤ (imin r).y
  -- `Rect<u16>`
  pub U16Rect : Type 0
  pub urect : U16Pos → U16Pos → U16Rect
  pub umin : U16Rect → U16Pos
  pub umax : U16Rect → U16Pos
  pub uwidth : U16Rect → ℕ
  pub uheight : U16Rect → ℕ
  pub umin_urect : (a b : U16Pos) → umin (urect a b) ≡ record { x = min a.x b.x; y = min a.y b.y }
  pub umax_urect : (a b : U16Pos) → umax (urect a b) ≡ record { x = max a.x b.x; y = max a.y b.y }
  pub umin-umax : (r : U16Rect) → ((umin r).x ≤ (umax r).x) × ((umin r).y ≤ (umax r).y)
  pub uwidth_lem : (r : U16Rect) → uwidth r ≡ (umax r).x - (umin r).x
  pub uheight_lem : (r : U16Rect) → uheight r ≡ (umax r).y - (umin r).y
  -- `num_traits::sign::abs_sub`, the positive difference.
  pub abs_sub : ℤ → ℤ → ℤ
  pub abs_sub_ge : (a b : ℤ) → b ≤ℤ a → abs_sub a b ≡ a -ℤ b
