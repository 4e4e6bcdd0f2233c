-- ===== src/Tree/Bound.antt =====
-- A bounded shape lies in its parent.
use rsvim.Prelude.{ℕ, ◌≡◌, ◌∙◌, arith, ℤ, pos, ◌+ℤ◌, ◌-ℤ◌, ◌≤ℤ◌, min_ℤ, max_ℤ}
use rsvim.Cart.{IPos}
use rsvim.Tree.Geo.{Geo}
use rsvim.Tree.Shapes.{bound_axis, bound_size, bound_position, bound_shape}

module _ (g : Geo) where
  -- One axis: a bounded extent of a shape, and where it is put.
  abbrev extent : ℤ → ℕ → ℤ
  extent size limit = max_ℤ (min_ℤ size (pos limit)) (pos 0)

  module _ (first size : ℤ) (limit : ℕ) (nonneg : pos 0 ≤ℤ size) where
    abbrev placed : ℤ
    placed = bound_axis g first (first +ℤ extent size limit) (pos limit)

    -- The axis after bounds: inside the parent, as long as before or as the parent, at the nearest place.
    bound_axis_lem :
        (pos 0 ≤ℤ placed)
        × (placed +ℤ extent size limit ≤ℤ pos limit)
        × (extent size limit ≡ min_ℤ size (pos limit))
        × (placed ≡ max_ℤ (min_ℤ first (pos limit -ℤ extent size limit)) (pos 0))
    unfolding bound_axis ◌+ℤ◌ ◌-ℤ◌
    bound_axis_lem = ground (arith, g.abs_sub_ge (first +ℤ extent size limit) (pos limit))

  -- A rectangle from its upper left corner and its extents.
  abbrev pub span : IPos → ℤ → ℤ → g.IRect
  span p w h = g.irect p (record { x = p.x +ℤ w; y = p.y +ℤ h })

  min_span : (a w : ℤ) → pos 0 ≤ℤ w → min_ℤ a (a +ℤ w) ≡ a
  unfolding ◌+ℤ◌
  min_span a w h = ground arith

  max_span : (a w : ℤ) → pos 0 ≤ℤ w → max_ℤ a (a +ℤ w) ≡ a +ℤ w
  unfolding ◌+ℤ◌
  max_span a w h = ground arith

  sub_span : (a w : ℤ) → a +ℤ w -ℤ a ≡ w
  unfolding ◌+ℤ◌ ◌-ℤ◌
  sub_span a w = ground arith

  span_nonneg : (a b : ℤ) → a ≤ℤ b → pos 0 ≤ℤ b -ℤ a
  unfolding ◌-ℤ◌
  span_nonneg a b h = ground arith

  pub record Spans (r : g.IRect) (p : IPos) (w h : ℤ) : Type 0 where
    pub corner : g.imin r ≡ p
    pub far : g.imax r ≡ record { x = p.x +ℤ w; y = p.y +ℤ h }
    pub width : g.iwidth r ≡ w
    pub height : g.iheight r ≡ h

  pub span-Spans : (p : IPos) (w h : ℤ) → pos 0 ≤ℤ w → pos 0 ≤ℤ h → Spans (span p w h) p w h
  span-Spans p w h pw ph =
      let q : IPos = record { x = p.x +ℤ w; y = p.y +ℤ h } in
      let corner : g.imin (g.irect p q) ≡ p =
        ground (arith, g.imin_irect p q, min_span p.x w pw, min_span p.y h ph) in
      let far : g.imax (g.irect p q) ≡ q =
        ground (arith, g.imax_irect p q, max_span p.x w pw, max_span p.y h ph) in
      record {
        corner = corner;
        far = far;
        width = ground (arith, g.iwidth_lem (g.irect p q), corner, far, sub_span p.x w);
        height = ground (arith, g.iheight_lem (g.irect p q), corner, far, sub_span p.y h);
      }

  -- `r` is `shape` bounded by its parent: inside it, as large as it can be, and as near to its
  -- place as it can be.
  pub record Bounds (shape : g.IRect) (parent : g.U16Rect) (r : g.IRect) : Type 0 where
    pub left : pos 0 ≤ℤ (g.imin r).x
    pub top : pos 0 ≤ℤ (g.imin r).y
    pub right : (g.imax r).x ≤ℤ pos (g.uwidth parent)
    pub bottom : (g.imax r).y ≤ℤ pos (g.uheight parent)
    pub width : g.iwidth r ≡ min_ℤ (g.iwidth shape) (pos (g.uwidth parent))
    pub height : g.iheight r ≡ min_ℤ (g.iheight shape) (pos (g.uheight parent))
    pub place_x :
        (g.imin r).x ≡ max_ℤ (min_ℤ (g.imin shape).x (pos (g.uwidth parent) -ℤ g.iwidth r)) (pos 0)
    pub place_y :
        (g.imin r).y
        ≡ max_ℤ (min_ℤ (g.imin shape).y (pos (g.uheight parent) -ℤ g.iheight r)) (pos 0)

  extent_nonneg : (size : ℤ) (limit : ℕ) → pos 0 ≤ℤ extent size limit
  extent_nonneg size limit = ground arith

  bound_size-Spans :
      (shape : g.IRect) (parent : g.U16Rect)
      → Spans
          (bound_size g shape parent)
          (g.imin shape)
          (extent (g.iwidth shape) (g.uwidth parent))
          (extent (g.iheight shape) (g.uheight parent))
  unfolding bound_size
  bound_size-Spans shape parent =
      span-Spans (g.imin shape) (extent (g.iwidth shape) (g.uwidth parent))
        (extent (g.iheight shape) (g.uheight parent))
        (extent_nonneg (g.iwidth shape) (g.uwidth parent))
        (extent_nonneg (g.iheight shape) (g.uheight parent))

  abbrev placed_corner : g.IRect → g.U16Rect → IPos
  placed_corner shape parent =
      let w = extent (g.iwidth shape) (g.uwidth parent) in
      let h = extent (g.iheight shape) (g.uheight parent) in
      record {
        x = bound_axis g (g.imin shape).x ((g.imin shape).x +ℤ w) (pos (g.uwidth parent));
        y = bound_axis g (g.imin shape).y ((g.imin shape).y +ℤ h) (pos (g.uheight parent));
      }

  bound_shape-eq :
      (shape : g.IRect) (parent : g.U16Rect)
      → bound_shape g shape parent
        ≡ span
            (placed_corner shape parent)
            (extent (g.iwidth shape) (g.uwidth parent))
            (extent (g.iheight shape) (g.uheight parent))
  unfolding bound_shape bound_position
  bound_shape-eq shape parent =
      let s = bound_size-Spans shape parent in cc (s.corner, s.far, s.width, s.height)

  -- What `bound_shape` makes, from the placed axes.
  bound_shape-Spans :
      (shape : g.IRect) (parent : g.U16Rect)
      → Spans
          (bound_shape g shape parent)
          (placed_corner shape parent)
          (extent (g.iwidth shape) (g.uwidth parent))
          (extent (g.iheight shape) (g.uheight parent))
  bound_shape-Spans shape parent =
      let w = extent (g.iwidth shape) (g.uwidth parent) in
      let h = extent (g.iheight shape) (g.uheight parent) in
      rw (bound_shape-eq shape parent) (
        span-Spans (placed_corner shape parent) w h
          (extent_nonneg (g.iwidth shape) (g.uwidth parent))
          (extent_nonneg (g.iheight shape) (g.uheight parent)))

  -- A bounded shape lies in its parent, has its own extents cut to those of the parent, and stands at
  -- the place in the parent that is nearest to its own.
  pub bound_shape-Bounds :
      (shape : g.IRect) (parent : g.U16Rect) → Bounds shape parent (bound_shape g shape parent)
  bound_shape-Bounds shape parent =
      let s = bound_shape-Spans shape parent in
      let (ox, oy) = g.imin-imax shape in
      let nw : pos 0 ≤ℤ g.iwidth shape = rw (g.iwidth_lem shape) (span_nonneg _ _ ox) in
      let nh : pos 0 ≤ℤ g.iheight shape = rw (g.iheight_lem shape) (span_nonneg _ _ oy) in
      let (lx, rx, wx, stx) =
        bound_axis_lem (g.imin shape).x (g.iwidth shape) (g.uwidth parent) nw in
      let (ly, ry, wy, sty) =
        bound_axis_lem (g.imin shape).y (g.iheight shape) (g.uheight parent) nh in
      record {
        left = rw s.corner lx;
        top = rw s.corner ly;
        right = rw s.far rx;
        bottom = rw s.far ry;
        width = s.width ∙ wx;
        height = s.height ∙ wy;
        place_x = rw s.corner (rw s.width stx);
        place_y = rw s.corner (rw s.height sty);
      }
