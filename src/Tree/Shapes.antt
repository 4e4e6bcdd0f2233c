-- ===== src/Tree/Shapes.antt =====
-- rsvim_core/src/ui/tree/internal/shapes.rs: the actual shape of a node, and the bounds that its
-- parent sets. `isize` is taken without bounds.
use rsvim.Prelude.{if◌then◌else◌, Outcome, ok, ◌>>=◌, ℤ, pos, ◌+ℤ◌, ◌-ℤ◌, ltb_ℤ, min_ℤ, max_ℤ}
use rsvim.Cart.{U16Pos, IPos, ISize, isize_as_u16, add_u16}
use rsvim.Tree.Geo.{Geo}

-- `geo_point_as!(p, isize)`
abbrev pub ipos : U16Pos → IPos
ipos p = record { x = pos p.x; y = pos p.y }

abbrev pub add_ipos : IPos → IPos → IPos
add_ipos a b = record { x = a.x +ℤ b.x; y = a.y +ℤ b.y }

-- `min(max(a, low), high)`
abbrev pub clamp : ℤ → ℤ → ℤ → ℤ
clamp a low high = min_ℤ (max_ℤ a low) high

module _ (g : Geo) where
  unfoldable pub make_actual_shape : g.IRect → g.U16Rect → Outcome g.U16Rect
  make_actual_shape shape parent_actual_shape =
      let parent_actual_top_left_ipos = ipos (g.umin parent_actual_shape) in
      let parent_actual_bottom_right_ipos = ipos (g.umax parent_actual_shape) in
      let top_left_pos = g.imin shape in
      let bottom_right_pos = g.imax shape in
      let actual_top_left_ipos = add_ipos top_left_pos parent_actual_top_left_ipos in
      let actual_top_left_x =
        clamp actual_top_left_ipos.x parent_actual_top_left_ipos.x
          parent_actual_bottom_right_ipos.x in
      let actual_top_left_y =
        clamp actual_top_left_ipos.y parent_actual_top_left_ipos.y
          parent_actual_bottom_right_ipos.y in
      let actual_top_left_pos : U16Pos = record {
        x = isize_as_u16 actual_top_left_x;
        y = isize_as_u16 actual_top_left_y;
      } in
      let actual_bottom_right_ipos = add_ipos bottom_right_pos parent_actual_top_left_ipos in
      let actual_bottom_right_x =
        clamp actual_bottom_right_ipos.x parent_actual_top_left_ipos.x
          parent_actual_bottom_right_ipos.x in
      let actual_bottom_right_y =
        clamp actual_bottom_right_ipos.y parent_actual_top_left_ipos.y
          parent_actual_bottom_right_ipos.y in
      let actual_bottom_right_pos : U16Pos = record {
        x = isize_as_u16 actual_bottom_right_x;
        y = isize_as_u16 actual_bottom_right_y;
      } in
      let actual_isize : ISize = record {
        width = pos actual_bottom_right_pos.x -ℤ pos actual_top_left_pos.x;
        height = pos actual_bottom_right_pos.y -ℤ pos actual_top_left_pos.y;
      } in
      (do
        right ← add_u16 actual_top_left_pos.x (isize_as_u16 actual_isize.width)
        bottom ← add_u16 actual_top_left_pos.y (isize_as_u16 actual_isize.height)
        ok (g.urect actual_top_left_pos (record { x = right; y = bottom })))

  unfoldable pub bound_size : g.IRect → g.U16Rect → g.IRect
  bound_size shape parent_actual_shape =
      let top_left_pos = g.imin shape in
      let height = max_ℤ (min_ℤ (g.iheight shape) (pos (g.uheight parent_actual_shape))) (pos 0) in
      let width = max_ℤ (min_ℤ (g.iwidth shape) (pos (g.uwidth parent_actual_shape))) (pos 0) in
      g.irect top_left_pos (record { x = top_left_pos.x +ℤ width; y = top_left_pos.y +ℤ height })

  -- The two axes of `bound_position`, from the two ends of the shape and the extent of the parent.
  unfoldable pub bound_axis : ℤ → ℤ → ℤ → ℤ
  bound_axis first last extent =
      if ltb_ℤ first (pos 0)
      then pos 0
      else if ltb_ℤ extent last
      then first -ℤ g.abs_sub last extent
      else first

  unfoldable pub bound_position : g.IRect → g.U16Rect → g.IRect
  bound_position shape parent_actual_shape =
      let top_left_pos = g.imin shape in
      let bottom_right_pos = g.imax shape in
      let top_left_x =
        bound_axis top_left_pos.x bottom_right_pos.x (pos (g.uwidth parent_actual_shape)) in
      let top_left_y =
        bound_axis top_left_pos.y bottom_right_pos.y (pos (g.uheight parent_actual_shape)) in
      g.irect (record { x = top_left_x; y = top_left_y })
        (record { x = top_left_x +ℤ g.iwidth shape; y = top_left_y +ℤ g.iheight shape })

  unfoldable pub bound_shape : g.IRect → g.U16Rect → g.IRect
  bound_shape shape parent_actual_shape =
      let bounded = bound_size shape parent_actual_shape in
      bound_position bounded parent_actual_shape
