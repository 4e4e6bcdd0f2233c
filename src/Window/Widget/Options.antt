-- ===== src/Window/Widget/Options.antt =====
-- The options of a window and those of its viewport.
use rsvim.Prelude.{ℕ, ◌≡◌, refl, sym, ap, Bool, Option, ok, >>=-ok}
use rsvim.Tree.Geo.{Geo}
use rsvim.Buf.Rope.{Texts}
use rsvim.Buf.Buffer.{FileTypes, Buffer}
use rsvim.Viewport.Rows.{ViewportOptions}
use rsvim.Viewport.Sync.{from_top_left}
use rsvim.Viewport.View
use rsvim.Viewport.View.{Viewport, new_cursor}
use mathlib.Core.Path.{subst}
use rsvim.Tree.Itree
use rsvim.Tree.Itree.{Inode, Itree, new_inode, bounded_insert}
use rsvim.Window.Widget.{
  WindowLocalOptions, from, WindowNode, window_root_container, window_content, Window, new,
  set_options, set_wrap, set_line_break,
}

-- A step of a window's life that sets its options.
pub data Change {g : Geo} : Window g → Window g → Type 0 where
  by_options : {w : Window g} (options : WindowLocalOptions) → Change w (set_options options w)
  by_wrap : {w : Window g} (value : Bool) → Change w (set_wrap value w)
  by_line_break : {w : Window g} (value : Bool) → Change w (set_line_break value w)

pub data Changes {g : Geo} : Window g → Window g → Type 0 where
  stay : {w : Window g} → Changes w w
  change : {w v u : Window g} → Changes w v → Change v u → Changes w u

-- The viewport has the options of the window.
abbrev pub IsAligned : {g : Geo} → Window g → Type 0
IsAligned w = w.viewport.options ≡ from w.options

Change-IsAligned : {g : Geo} {w v : Window g} → Change w v → IsAligned v
unfolding set_options set_wrap set_line_break View.set_options
Change-IsAligned (by_options options) = refl
Change-IsAligned (by_wrap value) = refl
Change-IsAligned (by_line_break value) = refl

ok_inj : {A : Type 0} {a b : A} → ok a ≡ ok b → a ≡ b
ok_inj e = cc

viewport_options :
    {g : Geo} {x : Texts} {f : FileTypes} (options : ViewportOptions) (b : Buffer x f)
    (shape : g.U16Rect) (v : Viewport g)
    → View.new options b shape ≡ ok v
    → v.options ≡ options
unfolding View.new
viewport_options {g} options b shape v e =
    let (r, er, k) = >>=-ok (from_top_left g options b shape 0 0) _ e in
    let (cursor, ec, same) = >>=-ok (new_cursor r.0 r.1) _ k in
    sym (ap (λ u. u.options) (ok_inj same))

new-IsAligned :
    {g : Geo} {x : Texts} {f : FileTypes} (root_id content_id : ℕ) (shape : g.IRect)
    (b : Buffer x f) (options : WindowLocalOptions) (w : Window g)
    → new root_id content_id shape b options ≡ ok w
    → IsAligned w
unfolding new
new-IsAligned {g} root_id content_id shape b options w e =
    let root : Inode g WindowNode = new_inode window_root_container root_id shape in
    let content : Inode g WindowNode = new_inode window_content content_id shape in
    let (v, ev, k) = >>=-ok (View.new (from options) b root.actual_shape) _ e in
    let window : Itree g WindowNode × Option (Inode g WindowNode) → Window g =
      λ r. record { base = r.0; content_id = content_id; options = options; viewport = v } in
    let (t, et, same) =
      >>=-ok (bounded_insert (Itree.new root) root_id content) (λ r. ok (window r)) k in
    subst IsAligned (ok_inj same) (viewport_options (from options) b root.actual_shape v ev)

-- From a window that was made on, whatever options are set: the viewport has the options of the window.
pub Changes-IsAligned :
    {g : Geo} {x : Texts} {f : FileTypes} (root_id content_id : ℕ) (shape : g.IRect)
    (b : Buffer x f) (options : WindowLocalOptions) (w v : Window g)
    → new root_id content_id shape b options ≡ ok w
    → Changes w v
    → IsAligned v
Changes-IsAligned root_id content_id shape b options w v e stay =
    new-IsAligned root_id content_id shape b options w e
Changes-IsAligned root_id content_id shape b options w v e (change cs c) = Change-IsAligned c
