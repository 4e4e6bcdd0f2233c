-- ===== src/Tree/Tests.antt =====
-- Rectangles as pairs of corners: the assumptions on the crates `geo` and `num_traits` can be met. A
-- tree of a root, a window and a cursor, and what the operations do to it.
use rsvim.Prelude.{
  ℕ, ◌≡◌, refl, true, ◌==◌, if◌then◌else◌, none, some, [], ◌∷◌, ok, arith, min, max, ◌-◌, ℤ, pos,
  negsuc, ◌+ℤ◌, ◌-ℤ◌, ◌≤ℤ◌, min_ℤ, max_ℤ, lookup,
}
use rsvim.Cart.{U16Pos, IPos}
use rsvim.Tree.Geo.{Geo}
use rsvim.Tree.Shapes.{make_actual_shape, bound_shape, add_ipos, ipos}
use rsvim.Tree.Clip.{Clips, IsIsize, make_actual_shape_lem}
use rsvim.Tree.Bound.{Bounds, bound_shape-Bounds}
use rsvim.Tree.Itree
use rsvim.Tree.Itree.{Inode, Itree, insert_by_zindex}
use rsvim.Tree.Itree.Insert.{Inserts, insert-Inserts}
use rsvim.Tree.Itree.Remove.{remove-insert}
use rsvim.Tree.Itree.Moved.{IsLeaf, BoundedMoves, bounded_move_by-BoundedMoves}
use rsvim.Tree.Widgets.{Widgets, TreeNode, Tree, root_container, window, cursor, insert}
use rsvim.Tree.Widgets.Guards.{Guarded, Placed, insert-Placed}

pub record Corners (T : Type 0) : Type 0 where
  pub a : T
  pub b : T

abbrev pub low : Corners IPos → IPos
low r = record { x = min_ℤ r.a.x r.b.x; y = min_ℤ r.a.y r.b.y }

abbrev pub high : Corners IPos → IPos
high r = record { x = max_ℤ r.a.x r.b.x; y = max_ℤ r.a.y r.b.y }

abbrev pub ulow : Corners U16Pos → U16Pos
ulow r = record { x = min r.a.x r.b.x; y = min r.a.y r.b.y }

abbrev pub uhigh : Corners U16Pos → U16Pos
uhigh r = record { x = max r.a.x r.b.x; y = max r.a.y r.b.y }

pub abs_sub_max : (a b : ℤ) → b ≤ℤ a → max_ℤ (a -ℤ b) (pos 0) ≡ a -ℤ b
unfolding ◌-ℤ◌
abs_sub_max a b h = ground arith

pub corners_sorted : (r : Corners IPos) → ((low r).x ≤ℤ (high r).x) × ((low r).y ≤ℤ (high r).y)
corners_sorted r = ground arith

abbrev pub corners : Geo
corners = record {
  IRect = Corners IPos;
  irect = λ a b. record { a = a; b = b };
  imin = low;
  imax = high;
  iwidth = λ r. (high r).x -ℤ (low r).x;
  iheight = λ r. (high r).y -ℤ (low r).y;
  imin_irect = λ a b. refl;
  imax_irect = λ a b. refl;
  imin-imax = corners_sorted;
  iwidth_lem = λ r. refl;
  iheight_lem = λ r. refl;
  U16Rect = Corners U16Pos;
  urect = λ a b. record { a = a; b = b };
  umin = ulow;
  umax = uhigh;
  uwidth = λ r. (uhigh r).x - (ulow r).x;
  uheight = λ r. (uhigh r).y - (ulow r).y;
  umin_urect = λ a b. refl;
  umax_urect = λ a b. refl;
  umin-umax = λ r. (omega arith, omega arith);
  uwidth_lem = λ r. refl;
  uheight_lem = λ r. refl;
  abs_sub = λ a b. max_ℤ (a -ℤ b) (pos 0);
  abs_sub_ge = abs_sub_max;
}

abbrev pub plain : Widgets
plain = record { RootContainer = Unit; Window = Unit; Cursor = Unit }

abbrev pub ibox : ℤ → ℤ → ℤ → ℤ → Corners IPos
ibox x y x' y' = record { a = record { x = x; y = y }; b = record { x = x'; y = y' } }

abbrev pub ubox : ℕ → ℕ → ℕ → ℕ → Corners U16Pos
ubox x y x' y' = record { a = record { x = x; y = y }; b = record { x = x'; y = y' } }

abbrev pub inode :
    TreeNode plain → ℕ → ℕ → Corners IPos → Corners U16Pos → ℕ → Inode corners (TreeNode plain)
inode value id depth shape actual zindex = record {
  value = value;
  id = id;
  depth = depth;
  shape = shape;
  actual_shape = actual;
  zindex = zindex;
  enabled = true;
  visible = true;
}

abbrev pub root_node : Inode corners (TreeNode plain)
root_node = inode (root_container tt) 1 0 (ibox (pos 0) (pos 0) (pos 10) (pos 5)) (ubox 0 0 10 5) 0

abbrev pub window_node : Inode corners (TreeNode plain)
window_node = inode (window tt) 2 1 (ibox (pos 0) (pos 0) (pos 10) (pos 5)) (ubox 0 0 10 5) 0

abbrev pub cursor_node : Inode corners (TreeNode plain)
cursor_node = inode (cursor tt) 3 2 (ibox (pos 0) (pos 0) (pos 1) (pos 1)) (ubox 0 0 1 1) 1

-- A root and a window, without a cursor.
abbrev empty_window : Tree corners plain
empty_window = record {
  base = record {
    root_id = 1;
    nodes = (1, root_node) ∷ (2, window_node) ∷ [];
    parent_ids = (2, 1) ∷ [];
    children_ids = (1, 2 ∷ []) ∷ (2, []) ∷ [];
  };
  cursor_id = none;
  window_ids = 2 ∷ [];
}

abbrev pub with_cursor : Tree corners plain
with_cursor = record {
  base = record {
    root_id = 1;
    nodes = (1, root_node) ∷ (2, window_node) ∷ (3, cursor_node) ∷ [];
    parent_ids = (2, 1) ∷ (3, 2) ∷ [];
    children_ids = (1, 2 ∷ []) ∷ (2, 3 ∷ []) ∷ (3, []) ∷ [];
  };
  cursor_id = some 3;
  window_ids = 2 ∷ [];
}

empty_window-Guarded : Guarded empty_window
empty_window-Guarded = record { windows = λ j. ground arith; cursor = tt }

with_cursor-Guarded : Guarded with_cursor
with_cursor-Guarded = record { windows = λ j. ground arith; cursor = refl }

-- A shape that sticks out of its parent on the left and below.
abbrev wide : Corners IPos
wide = ibox (negsuc 1) (pos 3) (pos 4) (pos 9)

make_actual_shape_lem_example :
    (r : Corners U16Pos) × (make_actual_shape corners wide (ubox 2 1 8 6) ≡ ok r)
    × Clips corners wide (ubox 2 1 8 6) r
    × IsIsize corners (add_ipos (corners.imin wide) (ipos (corners.umin (ubox 2 1 8 6))))
    × IsIsize corners (add_ipos (corners.imax wide) (ipos (corners.umin (ubox 2 1 8 6))))
unfolding ◌+ℤ◌ ◌-ℤ◌
make_actual_shape_lem_example =
    make_actual_shape_lem corners wide (ubox 2 1 8 6) (omega arith, omega arith)
      ((ground arith, ground arith), (ground arith, ground arith))
      ((ground arith, ground arith), (ground arith, ground arith))

bound_shape-Bounds_example :
    Bounds corners
      (ibox (negsuc 1) (pos 3) (pos 4) (pos 9))
      (ubox 2 1 8 6)
      (bound_shape corners (ibox (negsuc 1) (pos 3) (pos 4) (pos 9)) (ubox 2 1 8 6))
bound_shape-Bounds_example =
    bound_shape-Bounds corners (ibox (negsuc 1) (pos 3) (pos 4) (pos 9)) (ubox 2 1 8 6)

insert-Inserts_example :
    Inserts empty_window.base 2 window_node cursor_node []
      (Itree.insert empty_window.base 2 cursor_node)
insert-Inserts_example =
    insert-Inserts empty_window.base 2 window_node cursor_node [] refl refl (omega arith)
      (omega arith, omega arith)

remove-insert_example :
    (t' : Itree corners (TreeNode plain)) × (t'' : Itree corners (TreeNode plain)) × (n : Inode
      corners
      (TreeNode plain))
    × (Itree.insert empty_window.base 2 cursor_node ≡ ok (t', none))
    × (Itree.remove t' 3 ≡ ok (t'', some n))
    × (n.value ≡ cursor tt)
    × ((j : ℕ) → Itree.node t'' j ≡ Itree.node empty_window.base j)
    × ((j : ℕ) → lookup j t''.parent_ids ≡ lookup j empty_window.base.parent_ids)
    × ((j : ℕ)
        → lookup j t''.children_ids
          ≡ (if j == 3 then some [] else lookup j empty_window.base.children_ids))
remove-insert_example =
    remove-insert empty_window.base 2 window_node cursor_node [] refl refl
      (omega arith, omega arith) refl refl tt (omega arith)

pub cursor_leaf : IsLeaf with_cursor.base 3 2 cursor_node window_node
cursor_leaf = record {
  found = refl;
  named = refl;
  parent_found = refl;
  parent_of = refl;
  apart = omega arith;
  childless = refl;
  fits = (omega arith, omega arith);
}

bounded_move_by-BoundedMoves_example :
    BoundedMoves with_cursor.base 3 cursor_node window_node
      (pos 20)
      (negsuc 2)
      (Itree.bounded_move_by with_cursor.base 3 (pos 20) (negsuc 2))
bounded_move_by-BoundedMoves_example =
    bounded_move_by-BoundedMoves with_cursor.base 3 2 cursor_node window_node (pos 20) (negsuc 2)
      cursor_leaf

insert-Placed_example :
    Placed empty_window 2 window_node cursor_node (insert empty_window 2 cursor_node)
insert-Placed_example =
    insert-Placed empty_window 2 window_node cursor_node [] empty_window-Guarded refl refl
      (omega arith, omega arith) refl refl
