-- ===== src/Tree/Widgets/Current.antt =====
-- The current window is the one that holds the cursor.
use rsvim.Prelude.{ℕ, ◌≡◌, true, none, some, List, ok, arith, lookup}
use rsvim.Tree.Geo.{Geo}
use rsvim.Tree.Clip.{FitsU16}
use rsvim.Tree.Itree.{Inode}
use rsvim.Tree.Widgets.{
  Widgets, TreeNode, Tree, node, is_window, window_loop, current_window_id, insert,
}
use rsvim.Tree.Widgets.Guards.{Guarded, is_cursor, insert-Placed}

module _ {g : Geo} {w : Widgets} where
  -- Whatever fuel, one round finds the window of a cursor that stands right under it.
  pub current_window_id-parent :
      (t : Tree g w) (id parent_id : ℕ)
      → t.cursor_id ≡ some id
      → lookup id t.base.parent_ids ≡ some parent_id
      → is_window (node t parent_id) ≡ true
      → current_window_id t ≡ ok (some parent_id)
  unfolding current_window_id window_loop
  current_window_id-parent t id parent_id ec ep ew = ground (arith, ec, ep, ew)

  -- In a tree whose window and cursor ids are right, a new cursor is inserted under a window whose
  -- actual shape fits `u16`: it becomes the cursor of the tree, and the current window is this
  -- window.
  pub insert-current_window_id :
      (t : Tree g w) (parent_id : ℕ) (parent child : Inode g (TreeNode w)) (siblings : List ℕ)
      → Guarded t
      → node t parent_id ≡ some parent
      → lookup parent_id t.base.children_ids ≡ some siblings
      → FitsU16 g parent.actual_shape
      → node t child.id ≡ none
      → is_cursor (some child) ≡ true
      → is_window (some parent) ≡ true
      → (t' : Tree g w) × (insert t parent_id child ≡ ok (t', none))
        × (t'.cursor_id ≡ some child.id)
        × (current_window_id t' ≡ ok (some parent_id))
  insert-current_window_id t parent_id parent child siblings inv en ec fits fresh cur win =
      let p = insert-Placed t parent_id parent child siblings inv en ec fits fresh (ground arith) in
      let at : p.after.cursor_id ≡ some child.id = ground (arith, p.cursor, cur) in
      (
        p.after,
        ground (arith, p.returns, p.replaced, fresh),
        at,
        current_window_id-parent p.after child.id parent_id at p.linked
            (ground (arith, p.kept parent_id, en, fresh, win)),
      )
