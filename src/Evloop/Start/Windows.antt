-- ===== src/Evloop/Start/Windows.antt =====
-- rsvim_core/src/evloop.rs: the first window and its cursor, where there is a buffer.
use mathlib.Core.Path.{subst, sym}
use rsvim.Prelude.{
  ℕ, ◌≡◌, ◌≢◌, refl, ◌<◌, ◌+◌, ◌⊎◌, true, false, ◌&&◌, not, none, some, List, [], ok, arith, lookup,
  first_key_value,
}
use rsvim.Cart.{U16Size, u16_mod}
use rsvim.Tree.Geo.{Geo}
use rsvim.Tree.Clip.{FitsU16}
use rsvim.Tree.Shapes.{bound_shape}
use rsvim.Tree.Itree.{Inode, new_inode}
use rsvim.Tree.Itree.Insert.{bounded_insert-eq}
use rsvim.Tree.Widgets.{Widgets, TreeNode, Tree, node, is_window, insert_guard, current_window_id}
use rsvim.Tree.Widgets
use rsvim.Tree.Widgets.Guards.{Guarded, Placed, is_cursor, insert_guard-ok, insert-Placed}
use rsvim.Tree.Widgets.Current.{current_window_id-parent}
use rsvim.Buf.Rope.{Texts}
use rsvim.Buf.Buffer.{FileTypes, Buffer}
use rsvim.Buf.Manager.{BuffersManager}
use rsvim.Window.Widget.{WindowLocalOptions, Window}
use rsvim.Window.Widget
use rsvim.Buf.Buffer.{char_width}
use rsvim.Viewport.Sync.Tiled.{AllLinesWide}
use rsvim.Viewport.View.Made.{new-ShowsBuffer}
use rsvim.Window.Widget.{from}
use rsvim.Window.Widget.Made.{whole_u16, uwidth-whole, uheight-whole, whole-FitsU16, new_returns}
use rsvim.Tree.Widgets.{root_container}
use rsvim.Evloop.Start.{NodeIds, widgets, window_shape, window_node, cursor_node, init_windows}

module _ {g : Geo} {w : Widgets} where
  -- The node as `bounded_insert` puts it under the parent.
  abbrev bounded : Inode g (TreeNode w) → Inode g (TreeNode w) → Inode g (TreeNode w)
  bounded parent child = record child { shape = bound_shape g child.shape parent.actual_shape }

  bounded_insert-Placed :
      (t : Tree g w) (parent_id : ℕ) (parent child : Inode g (TreeNode w)) (siblings : List ℕ)
      → Guarded t
      → node t parent_id ≡ some parent
      → lookup parent_id t.base.children_ids ≡ some siblings
      → FitsU16 g parent.actual_shape
      → node t child.id ≡ none
      → (is_cursor (some child) && not (is_window (some parent))) ≡ false
      → Placed t parent_id parent (bounded parent child) (Widgets.bounded_insert t parent_id child)
  unfolding Widgets.bounded_insert Widgets.insert
  bounded_insert-Placed t parent_id parent child siblings inv en ec fits fresh under =
      let same : Widgets.bounded_insert t parent_id child
          ≡ Widgets.insert t parent_id (bounded parent child) =
        rw (insert_guard-ok t parent_id parent child en under, Widgets.bounded_insert)
          (rw (insert_guard-ok t parent_id parent (bounded parent child) en under, Widgets.insert)
            (rw (bounded_insert-eq t.base parent_id parent child en) refl)) in
      subst (Placed t parent_id parent (bounded parent child)) (sym same) (
        insert-Placed t parent_id parent (bounded parent child) siblings inv en ec fits fresh under)

module _ {g : Geo} where
  new-Guarded :
      (root : Unit {0}) (root_id : ℕ) (terminal_size : U16Size)
      → Guarded (Widgets.new {g = g} {w = widgets g} root root_id terminal_size)
  unfolding Widgets.new new_inode
  new-Guarded root root_id terminal_size = record { windows = λ j. ground arith; cursor = tt }

module _ {g : Geo} {x : Texts} {f : FileTypes} where
  -- Once the window is made: it and the cursor are put into a tree whose ids are right.
  insert_windows_lem :
      (ids : NodeIds) (canvas_size : U16Size) (local_options : WindowLocalOptions)
      (buffers : BuffersManager x f) (tree : Tree g (widgets g)) (key id : ℕ) (buf : Buffer x f)
      (win : Window g) (root : Inode g (TreeNode (widgets g))) (siblings : List ℕ)
      → first_key_value buffers.buffers ≡ some (key, id)
      → lookup id buffers.arcs ≡ some buf
      → Widget.new ids.window_root ids.window_content (window_shape g canvas_size) buf local_options
        ≡ ok win
      → Guarded tree
      → node tree tree.base.root_id ≡ some root
      → lookup tree.base.root_id tree.base.children_ids ≡ some siblings
      → FitsU16 g root.actual_shape
      → node tree ids.window_root ≡ none
      → node tree ids.cursor ≡ none
      → ids.cursor ≢ ids.window_root
      → (tree' : Tree g (widgets g)) × (init_windows ids canvas_size local_options buffers tree
          ≡ ok tree')
        × Guarded tree'
        × (tree'.cursor_id ≡ some ids.cursor)
        × (current_window_id tree' ≡ ok (some ids.window_root))
  unfolding init_windows new_inode
  insert_windows_lem ids canvas_size local_options buffers tree key id buf win root siblings ef ea
        ew inv en ec fits fresh_window fresh_cursor different =
      let p =
        bounded_insert-Placed tree tree.base.root_id root (window_node g ids canvas_size win)
          siblings inv en ec fits fresh_window refl in
      let found : node p.after ids.window_root ≡ some p.inserted =
        ground (arith, p.nodes ids.window_root) in
      let is_win : is_window (some p.inserted) ≡ true =
        ground (arith, found, p.kept ids.window_root) in
      let q =
        bounded_insert-Placed p.after ids.window_root p.inserted (cursor_node g ids) [] p.guarded
          found p.no_children (omega (arith, p.clipped.right, p.clipped.bottom))
          (ground (arith, p.nodes ids.cursor, fresh_cursor)) (rw is_win refl) in
      (
        q.after,
        rw (ef, init_windows) (rw ea (rw ew (rw p.returns (rw q.returns refl)))),
        q.guarded,
        q.cursor,
        current_window_id-parent q.after ids.cursor ids.window_root q.cursor q.linked
            (ground (arith, q.kept ids.window_root, found, is_win, different)),
      )

  -- On a terminal with at least one and fewer than 65535 rows, and at least one and fewer than 65536
  -- columns, in a new tree, where there is a first buffer whose characters are
  -- no wider than the terminal, without line-break or without wrapping, and for different numbers of the
  -- nodes: the window on the first buffer and the cursor are made and put into the tree, without a
  -- panic. The tree's cursor is the new one, the window is the current window, and the ids of the tree
  -- are right.
  pub init_windows_lem :
      (root_id : ℕ) (ids : NodeIds) (size : U16Size) (local_options : WindowLocalOptions)
      (buffers : BuffersManager x f) (key id : ℕ) (buf : Buffer x f) (w : ℕ → ℕ)
      → first_key_value buffers.buffers ≡ some (key, id)
      → lookup id buffers.arcs ≡ some buf
      → AllLinesWide (char_width buf) w size.width (x.lines buf.rope)
      → (local_options.wrap ≡ false) ⊎ (local_options.line_break ≡ false)
      → (0 < size.width) × (size.width < u16_mod) × (0 < size.height) × (size.height + 1 < u16_mod)
      → (ids.window_root ≢ root_id)
        × (ids.cursor ≢ root_id)
        × (ids.cursor ≢ ids.window_root)
        × (ids.window_content ≢ ids.window_root)
      → (tree : Tree g (widgets g)) × (init_windows ids size local_options buffers
            (Widgets.new tt root_id size)
          ≡ ok tree)
        × Guarded tree
        × (tree.cursor_id ≡ some ids.cursor)
        × (current_window_id tree ≡ ok (some ids.window_root))
  unfolding Widgets.new new_inode from
  init_windows_lem root_id ids size local_options buffers key id buf w ef ea wide modes
        (pw, sw, ph, sh) (d1, d2, d3, d4) =
      let tall : size.height < u16_mod = omega arith in
      let cols = uwidth-whole g size sw tall in
      let rows = uheight-whole g size sw tall in
      let (v, ev, _) =
        new-ShowsBuffer g w buf (whole_u16 g size) (from local_options) (rw cols pw) (rw cols sw)
          (rw rows ph) (rw rows sh) (rw cols wide) modes in
      let (win, ew, _, _, _) =
        new_returns ids.window_root ids.window_content (window_shape g size) buf local_options v d4
          (whole-FitsU16 g size sw tall) ev in
      let tree : Tree g (widgets g) = Widgets.new tt root_id size in
      insert_windows_lem ids size local_options buffers tree key id buf win
        (new_inode (root_container tt) root_id (window_shape g size)) [] ef ea ew
        (new-Guarded tt root_id size) (ground arith) (ground arith) (whole-FitsU16 g size sw tall)
        (ground (arith, d1)) (ground (arith, d2)) d3
