-- ===== src/Tree/Itree.antt =====
-- rsvim_core/src/ui/tree/internal/inode.rs and itree.rs: the nodes and the tree that holds them, over
-- the data `V` of a widget. The maps are `HashMap`s of the source. A loop over the descendants takes
-- fuel, one round for each node of the tree.
pub mod Insert
pub mod Remove
pub mod Moved
use package.rsvim.Prelude.{
  ℕ, zero, suc, ◌+◌, Bool, true, false, not, ltb, ◌==◌, if◌then◌else◌, Option, none, some, List, [],
  ◌∷◌, ◌++◌, length, Outcome, ok, stuck, ◌>>=◌, ◌>>◌, unwrap, assert, ℤ, pos, ◌+ℤ◌, ◌-ℤ◌, Map,
  lookup, contains_key,
}
use package.rsvim.Prelude
use mathlib.Core.Option
use package.rsvim.Cart.{Point, IPos, isize_as_u16}
use package.rsvim.Tree.Geo.{Geo}
use package.rsvim.Tree.Shapes.{make_actual_shape, bound_shape}

-- The first occurrence is removed.
unfoldable pub remove_first : ℕ → List ℕ → List ℕ
remove_first id [] = []
remove_first id (cid ∷ cids) = if cid == id then cids else (cid ∷ remove_first id cids)

unfoldable pub unlink : ℕ → Option ℕ → Map (List ℕ) → Map (List ℕ)
unlink id none children_ids = children_ids
unlink id (some parent_id) children_ids = elim (lookup parent_id children_ids) [
  | some cids ↦ Prelude.insert parent_id (remove_first id cids) children_ids
  | none ↦ children_ids
]

module _ (g : Geo) (V : Type 0) where
  -- A node: the data of its widget, and its `InodeBase`.
  pub record Inode : Type 0 where
    pub value : V
    pub id : ℕ
    pub depth : ℕ
    pub shape : g.IRect
    pub actual_shape : g.U16Rect
    pub zindex : ℕ
    pub enabled : Bool
    pub visible : Bool

  pub record Itree : Type 0 where
    pub root_id : ℕ
    pub nodes : Map Inode
    pub parent_ids : Map ℕ
    pub children_ids : Map (List ℕ)

module _ (g : Geo) where
  -- A child that waits in the queue, with the depth and the actual shape of its parent.
  pub record Pair : Type 0 where
    pub child : ℕ
    pub depth : ℕ
    pub actual_shape : g.U16Rect

  -- A shape moved by `(x, y)`.
  unfoldable pub moved_shape : g.IRect → ℤ → ℤ → g.IRect
  moved_shape current_shape x y =
      let next_top_left_pos : IPos = record {
        x = (g.imin current_shape).x +ℤ x;
        y = (g.imin current_shape).y +ℤ y;
      } in
      g.irect next_top_left_pos (record {
        x = next_top_left_pos.x +ℤ g.iwidth current_shape;
        y = next_top_left_pos.y +ℤ g.iheight current_shape;
      })

module _ {g : Geo} {V : Type 0} where
  -- `InodeBase::new`, with the number that `next_node_id` hands out.
  unfoldable pub new_inode : V → ℕ → g.IRect → Inode g V
  new_inode value next_node_id shape = record {
    value = value;
    id = next_node_id;
    depth = 0;
    shape = shape;
    actual_shape =
        g.urect (record { x = isize_as_u16 (g.imin shape).x; y = isize_as_u16 (g.imin shape).y })
          (record { x = isize_as_u16 (g.imax shape).x; y = isize_as_u16 (g.imax shape).y });
    zindex = 0;
    enabled = true;
    visible = true;
  }

  unfoldable pub new : Inode g V → Itree g V
  new root_node = record {
    root_id = root_node.id;
    nodes = (root_node.id, root_node) ∷ [];
    parent_ids = [];
    children_ids = (root_node.id, []) ∷ [];
  }

  abbrev pub node : Itree g V → ℕ → Option (Inode g V)
  node t id = lookup id t.nodes

  unfoldable pub len : Itree g V → ℕ
  len t = length t.nodes

  -- The children that have a node are pushed to the queue.
  unfoldable pub push_descendants : Map (Inode g V) → ℕ → g.U16Rect → List ℕ → List (Pair g)
  push_descendants nodes depth actual_shape [] = []
  push_descendants nodes depth actual_shape (dnode_id ∷ ids) =
      let rest = push_descendants nodes depth actual_shape ids in
      if contains_key dnode_id nodes
      then (record { child = dnode_id; depth = depth; actual_shape = actual_shape } ∷ rest)
      else rest

  -- The `while` loop of `update_descendant_attributes`.
  unfoldable pub update_loop :
      ℕ → Map (List ℕ) → Map (Inode g V) → List (Pair g) → Outcome (Map (Inode g V))
  update_loop fuel children_ids nodes [] = ok nodes
  update_loop zero children_ids nodes (p ∷ que) = stuck
  update_loop (suc fuel) children_ids nodes (p ∷ que) = do
    cnode ← unwrap (lookup p.child nodes)
    let cnode_depth = p.depth + 1
    cnode_actual_shape ← make_actual_shape g cnode.shape p.actual_shape
    let updated = record cnode { depth = cnode_depth; actual_shape = cnode_actual_shape }
    let nodes' = Prelude.insert p.child updated nodes
    let descendants =
        push_descendants nodes' cnode_depth cnode_actual_shape
          (Option.get_or (lookup cnode.id children_ids) [])
    update_loop fuel children_ids nodes' (que ++ descendants)

  unfoldable pub update_descendant_attributes : Itree g V → ℕ → ℕ → Outcome (Itree g V)
  update_descendant_attributes t start_id start_parent_id = do
    pnode ← unwrap (node t start_parent_id)
    start ← unwrap (node t start_id)
    nodes ←
        update_loop (length t.nodes) t.children_ids t.nodes
          (record { child = start_id; depth = pnode.depth; actual_shape = pnode.actual_shape } ∷ [])
    ok (record t { nodes = nodes })

  -- The place in front of the first sibling with a higher z-index, or the end.
  unfoldable pub insert_by_zindex : Map (Inode g V) → ℕ → ℕ → List ℕ → List ℕ
  insert_by_zindex nodes child_id child_zindex [] = child_id ∷ []
  insert_by_zindex nodes child_id child_zindex (cid ∷ cids) =
      let rest = insert_by_zindex nodes child_id child_zindex cids in
      elim (lookup cid nodes) [
        | some cnode ↦
            if ltb child_zindex cnode.zindex then (child_id ∷ cid ∷ cids) else (cid ∷ rest)
        | none ↦ cid ∷ rest
      ]

  -- `for dnode_id in descendant_ids.iter()`
  unfoldable pub update_each : List ℕ → ℕ → Itree g V → Outcome (Itree g V)
  update_each [] child_id t = ok t
  update_each (dnode_id ∷ ids) child_id t = do
    t' ← update_descendant_attributes t dnode_id child_id
    update_each ids child_id t'

  unfoldable pub insert : Itree g V → ℕ → Inode g V → Outcome (Itree g V × Option (Inode g V))
  insert t parent_id child_node = do
    assert (contains_key parent_id t.nodes)
    assert (contains_key parent_id t.children_ids)
    let child_id = child_node.id
    let children_ids = Prelude.insert child_id [] t.children_ids
    let parent_ids = Prelude.insert child_id parent_id t.parent_ids
    siblings ← unwrap (lookup parent_id children_ids)
    let siblings' = insert_by_zindex t.nodes child_id child_node.zindex siblings
    let children_ids' = Prelude.insert parent_id siblings' children_ids
    parent_node ← unwrap (node t parent_id)
    actual_shape ← make_actual_shape g child_node.shape parent_node.actual_shape
    let child = record child_node { depth = parent_node.depth + 1; actual_shape = actual_shape }
    let linked : Itree g V = record t { parent_ids = parent_ids; children_ids = children_ids' }
    updated ← update_each (Option.get_or (lookup child_id children_ids') []) child_id linked
    ok (
      record updated { nodes = Prelude.insert child_id child updated.nodes },
      lookup child_id updated.nodes,
    )

  unfoldable pub bounded_insert :
      Itree g V → ℕ → Inode g V → Outcome (Itree g V × Option (Inode g V))
  bounded_insert t parent_id child_node = do
    assert (contains_key parent_id t.nodes)
    parent_node ← unwrap (node t parent_id)
    insert t parent_id
        (record child_node { shape = bound_shape g child_node.shape parent_node.actual_shape })

  unfoldable pub remove : Itree g V → ℕ → Outcome (Itree g V × Option (Inode g V))
  remove t id = do
    assert (not (id == t.root_id))
    ok (elim (node t id) [
      | some removed ↦ (
        record t {
          nodes = Prelude.remove id t.nodes;
          parent_ids = Prelude.remove id t.parent_ids;
          children_ids = unlink id (lookup id t.parent_ids) t.children_ids;
        },
        some removed,
      )
      | none ↦ (t, none)
    ])

  unfoldable pub move_by : Itree g V → ℕ → ℤ → ℤ → Outcome (Itree g V × Option g.IRect)
  move_by t id x y = elim (node t id) [
    | none ↦ ok (t, none)
    | some n ↦ (do
      let next_shape = moved_shape g n.shape x y
      let t' = record t { nodes = Prelude.insert id (record n { shape = next_shape }) t.nodes }
      parent_id ← unwrap (lookup id t'.parent_ids)
      updated ← update_descendant_attributes t' id parent_id
      ok (updated, some next_shape))
  ]

  unfoldable pub bounded_move_by : Itree g V → ℕ → ℤ → ℤ → Outcome (Itree g V × Option g.IRect)
  bounded_move_by t id x y = elim (lookup id t.parent_ids) [
    | none ↦ ok (t, none)
    | some parent_id ↦ elim (node t parent_id) [
      | none ↦ ok (t, none)
      | some parent_node ↦ elim (node t id) [
        | none ↦ ok (t, none)
        | some n ↦
            let final_shape = bound_shape g (moved_shape g n.shape x y) parent_node.actual_shape in
            let final_x = (g.imin final_shape).x -ℤ (g.imin n.shape).x in
            let final_y = (g.imin final_shape).y -ℤ (g.imin n.shape).y in
            move_by t id final_x final_y
      ]
    ]
  ]
