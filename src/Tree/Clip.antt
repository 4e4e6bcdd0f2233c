-- ===== src/Tree/Clip.antt =====
-- The actual shape of a node is its shape clipped to its parent; a bounded shape lies in its parent.
use rsvim.Prelude.{ℕ, ◌+◌, ◌≤◌, ◌<◌, ◌≡◌, refl, ◌↔◌, ok, arith, ℤ, pos, ◌+ℤ◌, ◌-ℤ◌, ◌≤ℤ◌, ◌^◌}
use rsvim.Cart.{U16Pos, IPos, u16_mod, add_u16, isize_as_u16}
use rsvim.Tree.Geo.{Geo}
use rsvim.Tree.Shapes.{make_actual_shape, clamp, ipos, add_ipos}

-- A clamped number of the axis, as `u16`.
clamp_u16 : ℤ → ℕ → ℕ → ℕ
clamp_u16 a p q = isize_as_u16 (clamp (a +ℤ pos p) (pos p) (pos q))

-- A clamped number fits `u16`, and lies between the two ends.
clamp_u16_lem :
    (a : ℤ) (p q : ℕ)
    → p ≤ q
    → q < u16_mod
    → (pos (clamp_u16 a p q) ≡ clamp (a +ℤ pos p) (pos p) (pos q))
      × (p ≤ clamp_u16 a p q)
      × (clamp_u16 a p q ≤ q)
unfolding clamp_u16 ◌+ℤ◌
clamp_u16_lem a p q hpq hq = ground arith

clamp_u16_mono :
    (a b : ℤ) (p q : ℕ) → p ≤ q → q < u16_mod → a ≤ℤ b → clamp_u16 a p q ≤ clamp_u16 b p q
unfolding clamp_u16 ◌+ℤ◌
clamp_u16_mono a b p q hpq hq h = ground arith

-- A number lies between the clamped ends exactly when it lies between the parent's ends, and between
-- the shape's ends, moved to the parent.
clamp_u16_between :
    (a b : ℤ) (p q x : ℕ)
    → p ≤ q
    → q < u16_mod
    → a ≤ℤ b
    → ((clamp_u16 a p q ≤ x) × (x < clamp_u16 b p q))
      ↔ ((p ≤ x) × (x < q) × (a +ℤ pos p ≤ℤ pos x) × (pos (x + 1) ≤ℤ b +ℤ pos p))
unfolding clamp_u16 ◌+ℤ◌
clamp_u16_between a b p q x hpq hq h = ground arith

module _ (g : Geo) where
  -- A position lies in a rectangle, whose right and lower edges are outside.
  abbrev pub InRect : g.U16Rect → U16Pos → Type 0
  InRect r p =
      ((g.umin r).x ≤ p.x) × (p.x < (g.umax r).x) × (((g.umin r).y ≤ p.y) × (p.y < (g.umax r).y))

  -- A position lies in a shape that is placed relative to the upper left corner of its parent.
  abbrev pub InShape : g.IRect → g.U16Rect → U16Pos → Type 0
  InShape shape parent p =
      ((g.imin shape).x +ℤ pos (g.umin parent).x ≤ℤ pos p.x)
      × (pos (p.x + 1) ≤ℤ (g.imax shape).x +ℤ pos (g.umin parent).x)
      × (((g.imin shape).y +ℤ pos (g.umin parent).y ≤ℤ pos p.y)
          × (pos (p.y + 1) ≤ℤ (g.imax shape).y +ℤ pos (g.umin parent).y))

  -- The coordinates of a rectangle are below 65536.
  abbrev pub FitsU16 : g.U16Rect → Type 0
  FitsU16 r = ((g.umax r).x < u16_mod) × ((g.umax r).y < u16_mod)

  -- The actual shape lies in the parent, and holds the positions that shape and parent share.
  pub record Clips (shape : g.IRect) (parent r : g.U16Rect) : Type 0 where
    pub left : (g.umin parent).x ≤ (g.umin r).x
    pub right : (g.umax r).x ≤ (g.umax parent).x
    pub top : (g.umin parent).y ≤ (g.umin r).y
    pub bottom : (g.umax r).y ≤ (g.umax parent).y
    pub shared : (p : U16Pos) → InRect r p ↔ (InRect parent p × InShape shape parent p)

  -- The ends of the sides are put back in their place.
  right_end : (a b : ℕ) → a ≤ b → b < u16_mod → add_u16 a (isize_as_u16 (pos b -ℤ pos a)) ≡ ok b
  unfolding add_u16 ◌-ℤ◌
  right_end a b h hb = ground arith

  abbrev clipped_min : g.IRect → g.U16Rect → U16Pos
  clipped_min shape parent = record {
    x = clamp_u16 (g.imin shape).x (g.umin parent).x (g.umax parent).x;
    y = clamp_u16 (g.imin shape).y (g.umin parent).y (g.umax parent).y;
  }

  abbrev clipped_max : g.IRect → g.U16Rect → U16Pos
  clipped_max shape parent = record {
    x = clamp_u16 (g.imax shape).x (g.umin parent).x (g.umax parent).x;
    y = clamp_u16 (g.imax shape).y (g.umin parent).y (g.umax parent).y;
  }

  make_actual_shape-ok :
      (shape : g.IRect) (parent : g.U16Rect)
      → ((clipped_min shape parent).x ≤ (clipped_max shape parent).x)
        × ((clipped_min shape parent).y ≤ (clipped_max shape parent).y)
      → ((clipped_max shape parent).x < u16_mod) × ((clipped_max shape parent).y < u16_mod)
      → make_actual_shape g shape parent
        ≡ ok (g.urect (clipped_min shape parent) (clipped_max shape parent))
  unfolding make_actual_shape clamp_u16
  make_actual_shape-ok shape parent (lx, ly) (hx, hy) =
      let a = clipped_min shape parent in
      let b = clipped_max shape parent in
      rw (right_end a.x b.x lx hx) (rw (right_end a.y b.y ly hy) refl)

  -- In a parent whose coordinates fit `u16`, the actual shape of a node lies in the parent, and holds
  -- exactly the positions that the parent shares with the shape, placed relative to the parent's upper
  -- left corner.
  pub make_actual_shape-Clips :
      (shape : g.IRect) (parent : g.U16Rect)
      → FitsU16 parent
      → (r : g.U16Rect) × (make_actual_shape g shape parent ≡ ok r) × Clips shape parent r
  make_actual_shape-Clips shape parent fits =
      let px = (g.umin parent).x in
      let qx = (g.umax parent).x in
      let py = (g.umin parent).y in
      let qy = (g.umax parent).y in
      let (ox, oy) = g.umin-umax parent in
      let (sx, sy) = g.imin-imax shape in
      let ax = clamp_u16 (g.imin shape).x px qx in
      let bx = clamp_u16 (g.imax shape).x px qx in
      let ay = clamp_u16 (g.imin shape).y py qy in
      let by' = clamp_u16 (g.imax shape).y py qy in
      let (fax, lax, hax) = clamp_u16_lem (g.imin shape).x px qx ox fits.0 in
      let (fbx, lbx, hbx) = clamp_u16_lem (g.imax shape).x px qx ox fits.0 in
      let (fay, lay, hay) = clamp_u16_lem (g.imin shape).y py qy oy fits.1 in
      let (fby, lby, hby) = clamp_u16_lem (g.imax shape).y py qy oy fits.1 in
      let mx = clamp_u16_mono (g.imin shape).x (g.imax shape).x px qx ox fits.0 sx in
      let my = clamp_u16_mono (g.imin shape).y (g.imax shape).y py qy oy fits.1 sy in
      let a : U16Pos = record { x = ax; y = ay } in
      let b : U16Pos = record { x = bx; y = by' } in
      (
        g.urect a b,
        make_actual_shape-ok shape parent (mx, my) (omega arith, omega arith),
        record {
          left = ground (arith, g.umin_urect a b);
          right = ground (arith, g.umax_urect a b);
          top = ground (arith, g.umin_urect a b);
          bottom = ground (arith, g.umax_urect a b);
          shared = λ p. ground (
            arith,
            g.umin_urect a b,
            g.umax_urect a b,
            clamp_u16_between (g.imin shape).x (g.imax shape).x px qx p.x ox fits.0 sx,
            clamp_u16_between (g.imin shape).y (g.imax shape).y py qy p.y oy fits.1 sy,
          );
        },
      )

  -- Both coordinates of a position are numbers of `isize`, which has 64 bits.
  abbrev pub IsIsize : IPos → Type 0
  IsIsize p =
      ((pos 0 -ℤ pos (2 ^ 63) ≤ℤ p.x) × (p.x +ℤ pos 1 ≤ℤ pos (2 ^ 63)))
      × ((pos 0 -ℤ pos (2 ^ 63) ≤ℤ p.y) × (p.y +ℤ pos 1 ≤ℤ pos (2 ^ 63)))

  -- A position that stays in `isize` when a `u16` is added.
  abbrev pub IsFarFromEnd : IPos → Type 0
  IsFarFromEnd p =
      ((pos 0 -ℤ pos (2 ^ 63) ≤ℤ p.x) × (p.x +ℤ pos u16_mod ≤ℤ pos (2 ^ 63)))
      × ((pos 0 -ℤ pos (2 ^ 63) ≤ℤ p.y) × (p.y +ℤ pos u16_mod ≤ℤ pos (2 ^ 63)))

  sum-IsIsize :
      (a : IPos) (p : U16Pos)
      → IsFarFromEnd a
      → (p.x < u16_mod) × (p.y < u16_mod)
      → IsIsize (add_ipos a (ipos p))
  unfolding ◌+ℤ◌ ◌-ℤ◌
  sum-IsIsize a p far fits = ground arith

  -- In a parent whose coordinates fit `u16`, for a shape whose corners are in `isize` and at least 65536
  -- below its upper end: the corners placed relative to the parent's upper left corner are in `isize`,
  -- and the additions on `u16` do not overflow. The actual shape lies in the parent, and holds exactly
  -- the positions that the parent shares with the shape so placed.
  pub make_actual_shape_lem :
      (shape : g.IRect) (parent : g.U16Rect)
      → FitsU16 parent
      → IsFarFromEnd (g.imin shape)
      → IsFarFromEnd (g.imax shape)
      → (r : g.U16Rect) × (make_actual_shape g shape parent ≡ ok r)
        × Clips shape parent r
        × IsIsize (add_ipos (g.imin shape) (ipos (g.umin parent)))
        × IsIsize (add_ipos (g.imax shape) (ipos (g.umin parent)))
  make_actual_shape_lem shape parent fits far_min far_max =
      let (ox, oy) = g.umin-umax parent in
      let low : ((g.umin parent).x < u16_mod) × ((g.umin parent).y < u16_mod) =
        (omega arith, omega arith) in
      let (r, returns, clips) = make_actual_shape-Clips shape parent fits in
      (
        r,
        returns,
        clips,
        sum-IsIsize (g.imin shape) (g.umin parent) far_min low,
        sum-IsIsize (g.imax shape) (g.umin parent) far_max low,
      )
