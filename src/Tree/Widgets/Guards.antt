-- ===== src/Tree/Widgets/Guards.antt =====
-- The windows and the cursor of the tree, over insertions and removals.
use rsvim.Prelude.{
  ℕ, ◌≡◌, ◌≢◌, refl, sym, Bool, true, false, not, ◌&&◌, Bool-cases, inl, inr, ◌==◌, ◌||◌,
  if◌then◌else◌, Option, none, some, List, [], ◌∷◌, Outcome, ok, arith, lookup,
}
use mathlib.Core.Path.{subst}
use rsvim.Tree.Geo.{Geo}
use rsvim.Tree.Clip.{FitsU16, Clips}
use rsvim.Tree.Itree.{Inode}
use rsvim.Tree.Itree.Insert.{insert-Inserts}
use rsvim.Tree.Itree.Remove.{remove-Removes}
use rsvim.Tree.Widgets.{
  Widgets, TreeNode, root_container, window, cursor, Tree, node, is_window, contains, insert_id,
  remove_id, is_some_id, insert_guard, remove_guard, insert, remove,
}

contains-insert_id :
    (id j : ℕ) (xs : List ℕ) → contains j (insert_id id xs) ≡ (j == id || contains j xs)
contains-insert_id id j xs = ground arith

contains-remove_id :
    (id j : ℕ) (xs : List ℕ)
    → contains j (remove_id id xs) ≡ (if j == id then false else contains j xs)
contains-remove_id id j [] = ground arith
contains-remove_id id j (x ∷ xs) = ground (arith, contains-remove_id id j xs)

module _ {g : Geo} {w : Widgets} where
  abbrev pub is_cursor : Option (Inode g (TreeNode w)) → Bool
  is_cursor none = false
  is_cursor (some n) = elim n.value [
    | root_container r ↦ false
    | window v ↦ false
    | cursor c ↦ true
  ]

  -- The cursor of the tree, if it has one, is a node with a cursor widget.
  abbrev pub CursorFound : Tree g w → Option ℕ → Type 0
  CursorFound t none = Unit
  CursorFound t (some id) = is_cursor (node t id) ≡ true

  -- The window ids are those of the nodes with a window widget, and the cursor is one with a cursor.
  pub record Guarded (t : Tree g w) : Type 0 where
    pub windows : (j : ℕ) → contains j t.window_ids ≡ is_window (node t j)
    pub cursor : CursorFound t t.cursor_id

  -- What an insertion did to the tree and to its window and cursor ids.
  pub record Placed (t : Tree g w) (parent_id : ℕ) (parent child : Inode g (TreeNode w))
      (r : Outcome (Tree g w × Option (Inode g (TreeNode w)))) : Type 0 where
    pub after : Tree g w
    pub old : Option (Inode g (TreeNode w))
    pub returns : r ≡ ok (after, old)
    pub replaced : old ≡ node t child.id
    pub guarded : Guarded after
    pub linked : lookup child.id after.base.parent_ids ≡ some parent_id
    pub kept :
        (j : ℕ)
        → is_window (node after j)
          ≡ (if j == child.id then is_window (some child) else is_window (node t j))
    pub cursor : after.cursor_id ≡ (if is_cursor (some child) then some child.id else t.cursor_id)
    pub inserted : Inode g (TreeNode w)
    pub nodes : (j : ℕ) → node after j ≡ (if j == child.id then some inserted else node t j)
    pub clipped : Clips g child.shape parent.actual_shape inserted.actual_shape
    pub no_children : lookup child.id after.base.children_ids ≡ some []

  -- The ids after the guard of an insertion.
  abbrev pub guarded_ids : Tree g w → Inode g (TreeNode w) → Tree g w
  guarded_ids t child = record t {
    cursor_id = if is_cursor (some child) then some child.id else t.cursor_id;
    window_ids = if is_window (some child) then insert_id child.id t.window_ids else t.window_ids;
  }

  pub insert_guard-ok :
      (t : Tree g w) (parent_id : ℕ) (parent child : Inode g (TreeNode w))
      → node t parent_id ≡ some parent
      → (is_cursor (some child) && not (is_window (some parent))) ≡ false
      → insert_guard t child parent_id ≡ ok (guarded_ids t child)
  unfolding insert_guard
  insert_guard-ok t parent_id parent child e h = ground (arith, e)

  cursor_kept :
      (t t' : Tree g w) (id : ℕ) (b : Bool) (c : Option ℕ)
      → CursorFound t c
      → node t id ≡ none
      → ((j : ℕ) → is_cursor (node t' j) ≡ (if j == id then b else is_cursor (node t j)))
      → CursorFound t' c
  cursor_kept t t' id b none found fresh same = tt
  cursor_kept t t' id b (some c) found fresh same = ground (arith, same c, found, fresh)

  insert-Guarded :
      (t t' : Tree g w) (child inserted : Inode g (TreeNode w))
      → Guarded t
      → node t child.id ≡ none
      → inserted.value ≡ child.value
      → ((j : ℕ) → node t' j ≡ (if j == child.id then some inserted else node t j))
      → t'.cursor_id ≡ (guarded_ids t child).cursor_id
      → t'.window_ids ≡ (guarded_ids t child).window_ids
      → Guarded t'
  insert-Guarded t t' child inserted inv fresh ev nodes ec ew =
      let at = nodes child.id in
      record {
        windows = λ j. ground (
          arith,
          ew,
          nodes j,
          inv.windows j,
          inv.windows child.id,
          fresh,
          ev,
          contains-insert_id child.id j t.window_ids,
        );
        cursor = elim (Bool-cases (is_cursor (some child))) [
          | inl c ↦
              subst (CursorFound t')
                (sym (let e : t'.cursor_id ≡ some child.id = ground (arith, ec, c) in e))
                (ground (arith, at, ev, c))
          | inr c ↦
              subst (CursorFound t')
                (sym (let e : t'.cursor_id ≡ t.cursor_id = ground (arith, ec, c) in e))
                (cursor_kept t t' child.id false t.cursor_id inv.cursor fresh
                  (λ j. ground (arith, nodes j, ev, c)))
        ];
      }

  -- In a tree whose ids are right, a new node is inserted under a node that fits `u16`, a cursor under
  -- a window only: the insertion returns, the node is linked to its parent and clipped to it, and has no
  -- children, a cursor becomes the tree's cursor, the other nodes are as they were, and the ids are right
  -- again.
  pub insert-Placed :
      (t : Tree g w) (parent_id : ℕ) (parent child : Inode g (TreeNode w)) (siblings : List ℕ)
      → Guarded t
      → node t parent_id ≡ some parent
      → lookup parent_id t.base.children_ids ≡ some siblings
      → FitsU16 g parent.actual_shape
      → node t child.id ≡ none
      → (is_cursor (some child) && not (is_window (some parent))) ≡ false
      → Placed t parent_id parent child (insert t parent_id child)
  unfolding insert
  insert-Placed t parent_id parent child siblings inv en ec fits fresh under =
      let ne : child.id ≢ parent_id = ground (arith, en, fresh) in
      let i = insert-Inserts t.base parent_id parent child siblings en ec ne fits in
      let guarded = insert_guard-ok t parent_id parent child en under in
      let t' : Tree g w = record (guarded_ids t child) { base = i.after } in
      record {
        after = t';
        old = node t child.id;
        replaced = refl;
        returns = rw (guarded, insert) (rw i.returns refl);
        guarded = insert-Guarded t t' child i.inserted inv fresh i.value i.nodes refl refl;
        linked = ground (arith, i.parents child.id);
        kept = λ j. ground (arith, i.nodes j, i.value);
        cursor = refl;
        inserted = i.inserted;
        nodes = i.nodes;
        clipped = i.clipped;
        no_children = ground (arith, i.children child.id, ne);
      }

  removed_cursor :
      (t t' : Tree g w) (id : ℕ) (c : Option ℕ)
      → CursorFound t c
      → ((j : ℕ) → node t' j ≡ (if j == id then none else node t j))
      → CursorFound t' (if is_some_id c id then none else c)
  removed_cursor t t' id none found nodes = tt
  removed_cursor t t' id (some c) found nodes = elim (Bool-cases (c == id)) [
    | inl e ↦ rw e tt
    | inr e ↦ rw e (ground (arith, nodes c, found, e))
  ]

  -- In a tree whose ids are right, the removal of a node that has a parent, and is not the root,
  -- returns the node, and the ids are right again: a removed cursor is no longer the tree's.
  pub remove-Guarded :
      (t : Tree g w) (id parent_id : ℕ) (n : Inode g (TreeNode w)) (siblings : List ℕ)
      → Guarded t
      → id ≢ t.base.root_id
      → node t id ≡ some n
      → lookup id t.base.parent_ids ≡ some parent_id
      → lookup parent_id t.base.children_ids ≡ some siblings
      → (t' : Tree g w) × (remove t id ≡ ok (t', some n)) × (node t' id ≡ none) × Guarded t'
  unfolding remove remove_guard
  remove-Guarded t id parent_id n siblings inv root en ep ec =
      let r = remove-Removes t.base id parent_id n siblings root en ep ec in
      let t' : Tree g w = record (remove_guard t id) { base = r.after } in
      (
        t',
        rw (r.returns, remove) refl,
        ground (arith, r.nodes id),
        record {
          windows =
              λ j. ground (arith, r.nodes j, inv.windows j, contains-remove_id id j t.window_ids);
          cursor = removed_cursor t t' id t.cursor_id inv.cursor r.nodes;
        },
      )
