-- ===== src/Window/Widget/Made.antt =====
-- rsvim_core/src/ui/widget/window.rs: the making of a window.
use mathlib.Core.Path.{subst}
use rsvim.Prelude.{
  ℕ, ◌<◌, ◌≡◌, ◌≢◌, refl, ◌∙◌, sym, ap, some, [], ok, pos, min_ℤ, max_ℤ, min, max, arith,
}
use rsvim.Cart.{U16Size, U16Pos, isize_as_u16, u16_mod}
use rsvim.Tree.Geo.{Geo}
use rsvim.Tree.Clip.{FitsU16, Clips}
use rsvim.Tree.Shapes.{bound_shape}
use rsvim.Tree.Itree
use rsvim.Tree.Itree.{Inode, Itree, new_inode, node, bounded_insert}
use rsvim.Tree.Itree.Insert.{bounded_insert-eq, insert-Inserts}
use rsvim.Buf.Rope.{Texts}
use rsvim.Buf.Buffer.{FileTypes, Buffer}
use rsvim.Viewport.View
use rsvim.Viewport.View.{Viewport}
use rsvim.Window.Widget.{
  WindowLocalOptions, WindowNode, window_root_container, window_content, Window, from,
}
use rsvim.Window.Widget

-- The sides of a screen, whose corners are ordered and fit `u16`.
max_side :
    (n : ℕ)
    → n < u16_mod
    → max (isize_as_u16 (min_ℤ (pos 0) (pos n))) (isize_as_u16 (max_ℤ (pos 0) (pos n))) ≡ n
max_side n h = ground arith

min_side :
    (n : ℕ)
    → n < u16_mod
    → min (isize_as_u16 (min_ℤ (pos 0) (pos n))) (isize_as_u16 (max_ℤ (pos 0) (pos n))) ≡ 0
min_side n h = ground arith

-- The actual shape that a new node has.
abbrev pub new_actual_shape : (g : Geo) → g.IRect → g.U16Rect
new_actual_shape g shape =
    g.urect (record { x = isize_as_u16 (g.imin shape).x; y = isize_as_u16 (g.imin shape).y })
      (record { x = isize_as_u16 (g.imax shape).x; y = isize_as_u16 (g.imax shape).y })

-- The whole of a screen of a size.
module _ (g : Geo) (size : U16Size) where
  abbrev pub whole : g.IRect
  whole =
      g.irect (record { x = pos 0; y = pos 0 }) (record { x = pos size.width; y = pos size.height })

  abbrev pub whole_u16 : g.U16Rect
  whole_u16 = new_actual_shape g whole

  module _ (small_width : size.width < u16_mod) (small_height : size.height < u16_mod) where
    umax-whole : g.umax whole_u16 ≡ record { x = size.width; y = size.height }
    umax-whole =
        g.umax_urect _ _
        ∙ rw (g.imin_irect _ _) (
            rw (g.imax_irect _ _)
              (rw (max_side size.width small_width) (rw (max_side size.height small_height) refl)))

    umin-whole : g.umin whole_u16 ≡ record { x = 0; y = 0 }
    umin-whole =
        g.umin_urect _ _
        ∙ rw (g.imin_irect _ _) (
            rw (g.imax_irect _ _)
              (rw (min_side size.width small_width) (rw (min_side size.height small_height) refl)))

    pub whole-FitsU16 : FitsU16 g whole_u16
    whole-FitsU16 = (
      omega (arith, ap (λ (p : U16Pos). p.x) umax-whole, small_width),
      omega (arith, ap (λ (p : U16Pos). p.y) umax-whole, small_height),
    )

    pub uwidth-whole : g.uwidth whole_u16 ≡ size.width
    uwidth-whole = omega (
      arith,
      g.uwidth_lem whole_u16,
      ap (λ (p : U16Pos). p.x) umax-whole,
      ap (λ (p : U16Pos). p.x) umin-whole,
    )

    pub uheight-whole : g.uheight whole_u16 ≡ size.height
    uheight-whole = omega (
      arith,
      g.uheight_lem whole_u16,
      ap (λ (p : U16Pos). p.y) umax-whole,
      ap (λ (p : U16Pos). p.y) umin-whole,
    )

module _ {g : Geo} {x : Texts} {f : FileTypes} where
  -- A window whose viewport is made is made, where its shape fits `u16`: its content stands in it, and is
  -- clipped to it.
  pub new_returns :
      (root_id content_id : ℕ) (shape : g.IRect) (buffer : Buffer x f)
      (options : WindowLocalOptions) (v : Viewport g)
      → content_id ≢ root_id
      → FitsU16 g (new_actual_shape g shape)
      → View.new (from options) buffer (new_actual_shape g shape) ≡ ok v
      → (w : Window g) × (Widget.new root_id content_id shape buffer options ≡ ok w)
        × (w.viewport ≡ v)
        × (w.options ≡ options)
        × ((content : Inode g WindowNode) × (node w.base content_id ≡ some content)
            × (content.value ≡ window_content)
            × Clips g content.shape (new_actual_shape g shape) content.actual_shape)
  unfolding Widget.new Itree.new new_inode
  new_returns root_id content_id shape buffer options v different fits ev =
      let root : Inode g WindowNode = new_inode window_root_container root_id shape in
      let content : Inode g WindowNode = new_inode window_content content_id shape in
      let bounded : Inode g WindowNode = record content {
        shape = bound_shape g shape root.actual_shape;
      } in
      let found : node (Itree.new root) root_id ≡ some root = ground arith in
      let i =
        insert-Inserts (Itree.new root) root_id root bounded [] found (ground arith) different
          fits in
      let eq = bounded_insert-eq (Itree.new root) root_id root content found ∙ i.returns in
      let w : Window g = record {
        base = i.after;
        content_id = content_id;
        options = options;
        viewport = v;
      } in
      (
        w,
        rw (ev, Widget.new) (rw eq refl),
        refl,
        refl,
        (
          i.inserted,
          ground (arith, i.nodes content_id),
          i.value,
          subst (λ s. Clips g s (new_actual_shape g shape) i.inserted.actual_shape) (sym i.shape)
              i.clipped,
        ),
      )
