-- ===== src/Tree/Itree/Moved.antt =====
-- `Itree::move_by` and `Itree::bounded_move_by` of a node without children, as the cursor is.
use rsvim.Prelude.{
  ℕ, zero, suc, ◌+◌, ◌≡◌, ◌≢◌, refl, sym, ◌∙◌, ap, Bool-cases, inl, inr, Bool, true, false, ◌==◌,
  if◌then◌else◌, Option, none, some, List, [], ◌∷◌, ◌++◌, length, Outcome, ok, ◌>>=◌, arith, ℤ, pos,
  ◌+ℤ◌, ◌-ℤ◌, ◌≤ℤ◌, min_ℤ, max_ℤ, Map, lookup, lookup-insert,
}
use rsvim.Prelude
use rsvim.Cart.{IPos}
use rsvim.Tree.Geo.{Geo}
use rsvim.Tree.Shapes.{make_actual_shape, bound_shape}
use rsvim.Tree.Clip.{Clips, FitsU16, make_actual_shape-Clips}
use rsvim.Tree.Bound.{Spans, span-Spans, bound_shape-Bounds}
use rsvim.Tree.Itree.{
  Inode, Itree, Pair, node, push_descendants, update_loop, update_descendant_attributes,
  moved_shape, move_by, bounded_move_by,
}

module _ {g : Geo} {V : Type 0} where
  -- A node of the tree that has a parent and no children.
  pub record IsLeaf (t : Itree g V) (id parent_id : ℕ) (n parent : Inode g V) : Type 0 where
    pub found : node t id ≡ some n
    pub named : n.id ≡ id
    pub parent_found : node t parent_id ≡ some parent
    pub parent_of : lookup id t.parent_ids ≡ some parent_id
    pub apart : id ≢ parent_id
    pub childless : lookup id t.children_ids ≡ some []
    pub fits : FitsU16 g parent.actual_shape

  -- What a move of the leaf to the shape `next` did: the leaf has this shape, its depth and its
  -- actual shape follow from its parent's, and the rest of the tree is as it was.
  pub record Moves (t : Itree g V) (id : ℕ) (n parent : Inode g V) (next : g.IRect)
      (r : Outcome (Itree g V × Option g.IRect)) : Type 0 where
    pub after : Itree g V
    pub moved : Inode g V
    pub returns : r ≡ ok (after, some next)
    pub nodes : (j : ℕ) → node after j ≡ (if j == id then some moved else node t j)
    pub shape : moved.shape ≡ next
    pub depth : moved.depth ≡ parent.depth + 1
    pub clipped : Clips g next parent.actual_shape moved.actual_shape
    pub value : moved.value ≡ n.value
    pub named : moved.id ≡ n.id
    pub parents : after.parent_ids ≡ t.parent_ids
    pub children : after.children_ids ≡ t.children_ids
    pub root : after.root_id ≡ t.root_id

  -- One round of the loop is enough for a leaf.
  update_loop-leaf :
      (fuel : ℕ) (children_ids : Map (List ℕ)) (nodes : Map (Inode g V)) (p : Pair g)
      (n : Inode g V) (actual : g.U16Rect)
      → lookup p.child nodes ≡ some n
      → lookup n.id children_ids ≡ some []
      → make_actual_shape g n.shape p.actual_shape ≡ ok actual
      → update_loop (suc fuel) children_ids nodes (p ∷ [])
        ≡ ok
            (Prelude.insert p.child (record n { depth = p.depth + 1; actual_shape = actual }) nodes)
  unfolding update_loop push_descendants
  update_loop-leaf fuel children_ids nodes p n actual e ec ea = rw e (rw ea (rw ec refl))

  length-insert :
      (k : ℕ) (v : Inode g V) (m : Map (Inode g V))
      → (l : ℕ) × (length (Prelude.insert k v m) ≡ suc l)
  length-insert k v [] = (0, refl)
  length-insert k v ((j, w) ∷ m) = elim (Bool-cases (k == j)) [
    | inl e ↦ (length m, ground (arith, e))
    | inr e ↦ (length (Prelude.insert k v m), ground (arith, e))
  ]

  -- A move of a leaf.
  pub move_by-Moves :
      (t : Itree g V) (id parent_id : ℕ) (n parent : Inode g V) (x y : ℤ)
      → IsLeaf t id parent_id n parent
      → Moves t id n parent (moved_shape g n.shape x y) (move_by t id x y)
  unfolding move_by update_descendant_attributes
  move_by-Moves t id parent_id n parent x y l =
      let next = moved_shape g n.shape x y in
      let (actual, ea, clip) = make_actual_shape-Clips g next parent.actual_shape l.fits in
      let n' : Inode g V = record n { shape = next } in
      let nodes = Prelude.insert id n' t.nodes in
      let moved : Inode g V = record n' { depth = parent.depth + 1; actual_shape = actual } in
      let (fuel, ef) = length-insert id n' t.nodes in
      let found : lookup id nodes ≡ some n' = ground (arith, lookup-insert id id n' t.nodes) in
      let above : lookup parent_id nodes ≡ some parent =
        ground (arith, l.apart, l.parent_found, lookup-insert id parent_id n' t.nodes) in
      let loop =
        update_loop-leaf fuel t.children_ids nodes
          (record { child = id; depth = parent.depth; actual_shape = parent.actual_shape }) n'
          actual found (ground (arith, l.named, l.childless)) ea in
      record {
        after = record t { nodes = Prelude.insert id moved nodes };
        moved = moved;
        returns = ground (arith, l.found, l.parent_of, found, above, ef, loop);
        nodes = λ j. ground (arith, lookup-insert id j moved nodes, lookup-insert id j n' t.nodes);
        shape = refl;
        depth = refl;
        clipped = clip;
        value = refl;
        named = refl;
        parents = refl;
        children = refl;
        root = refl;
      }

module _ (g : Geo) where
  back : (a b : ℤ) → a +ℤ (b -ℤ a) ≡ b
  unfolding ◌+ℤ◌ ◌-ℤ◌
  back a b = ground arith

  extents_nonneg : (r : g.IRect) → (pos 0 ≤ℤ g.iwidth r) × (pos 0 ≤ℤ g.iheight r)
  unfolding ◌-ℤ◌
  extents_nonneg r = ground (arith, g.imin-imax r, g.iwidth_lem r, g.iheight_lem r)

  -- A moved shape keeps its extents.
  moved_shape-Spans :
      (r : g.IRect) (x y : ℤ)
      → Spans g
          (moved_shape g r x y)
          (record { x = (g.imin r).x +ℤ x; y = (g.imin r).y +ℤ y })
          (g.iwidth r)
          (g.iheight r)
  unfolding moved_shape
  moved_shape-Spans r x y =
      span-Spans g (record { x = (g.imin r).x +ℤ x; y = (g.imin r).y +ℤ y }) (g.iwidth r)
        (g.iheight r) (extents_nonneg r).0 (extents_nonneg r).1

module _ {g : Geo} {V : Type 0} where
  -- What a bounded move did: a move, to the place in the parent that is nearest to the wanted one.
  pub record BoundedMoves (t : Itree g V) (id : ℕ) (n parent : Inode g V) (x y : ℤ)
      (r : Outcome (Itree g V × Option g.IRect)) : Type 0 where
    pub next : g.IRect
    pub moves : Moves t id n parent next r
    pub place_x :
        (g.imin next).x
        ≡ max_ℤ
            (min_ℤ ((g.imin n.shape).x +ℤ x) (
              pos (g.uwidth parent.actual_shape)
              -ℤ min_ℤ (g.iwidth n.shape) (pos (g.uwidth parent.actual_shape))))
            (pos 0)
    pub place_y :
        (g.imin next).y
        ≡ max_ℤ
            (min_ℤ ((g.imin n.shape).y +ℤ y) (
              pos (g.uheight parent.actual_shape)
              -ℤ min_ℤ (g.iheight n.shape) (pos (g.uheight parent.actual_shape))))
            (pos 0)
    pub width : g.iwidth next ≡ g.iwidth n.shape
    pub height : g.iheight next ≡ g.iheight n.shape

  -- A bounded move of a node without children, under a parent whose actual shape fits `u16`, returns
  -- its new shape: of the old extents, at the place in the parent that is nearest to the wanted one.
  -- Depth and actual shape of the node follow, and the rest of the tree is as it was.
  pub bounded_move_by-BoundedMoves :
      (t : Itree g V) (id parent_id : ℕ) (n parent : Inode g V) (x y : ℤ)
      → IsLeaf t id parent_id n parent
      → BoundedMoves t id n parent x y (bounded_move_by t id x y)
  unfolding bounded_move_by
  bounded_move_by-BoundedMoves t id parent_id n parent x y l =
      let wanted = moved_shape g n.shape x y in
      let final = bound_shape g wanted parent.actual_shape in
      let fx = (g.imin final).x -ℤ (g.imin n.shape).x in
      let fy = (g.imin final).y -ℤ (g.imin n.shape).y in
      let b = bound_shape-Bounds g wanted parent.actual_shape in
      let sw = moved_shape-Spans g n.shape x y in
      let sf = moved_shape-Spans g n.shape fx fy in
      let eq : bounded_move_by t id x y ≡ move_by t id fx fy =
        rw (l.parent_of, bounded_move_by) (rw l.parent_found (rw l.found refl)) in
      record {
        next = moved_shape g n.shape fx fy;
        moves = rw eq (move_by-Moves t id parent_id n parent fx fy l);
        place_x =
            ap (λ (p : IPos). p.x) sf.corner
            ∙ back g _ _
            ∙ b.place_x
            ∙ cc (sw.corner, sw.width, b.width);
        place_y =
            ap (λ (p : IPos). p.y) sf.corner
            ∙ back g _ _
            ∙ b.place_y
            ∙ cc (sw.corner, sw.height, b.height);
        width = sf.width;
        height = sf.height;
      }
