-- ===== src/State/Fsm/Moves.antt =====
-- What a key does to the tree in the normal mode: the cursor makes a bounded move of one cell.
use rsvim.Prelude.{
  ℕ, ◌≡◌, refl, ◌⊎◌, ◌==◌, if◌then◌else◌, Option, none, some, Outcome, ok, ◌>>=◌, arith, ℤ, pos,
  negsuc, ◌-ℤ◌,
}
use rsvim.Tree.Geo.{Geo}
use rsvim.Tree.Itree
use rsvim.Tree.Itree.{Inode}
use rsvim.Tree.Itree.Moved.{IsLeaf, BoundedMoves, bounded_move_by-BoundedMoves}
use rsvim.Tree.Widgets.{
  Widgets, TreeNode, Tree, bounded_move_by, bounded_move_up_by, bounded_move_down_by,
  bounded_move_left_by, bounded_move_right_by,
}
use rsvim.State.Keys.{KeyTypes, KeyCode, up, down, left, right, esc, char, other}
use rsvim.State.Fsm.{press_key}

-- The move that a key asks for, to the right and down.
abbrev pub delta : {k : KeyTypes} → KeyCode k → Option (ℤ × ℤ)
delta up = some (pos 0, negsuc 0)
delta down = some (pos 0, pos 1)
delta left = some (negsuc 0, pos 0)
delta right = some (pos 1, pos 0)
delta esc = none
delta (char c) =
    if c == b'k'
    then some (pos 0, negsuc 0)
    else if c == b'j'
    then some (pos 0, pos 1)
    else if c == b'h'
    then some (negsuc 0, pos 0)
    else if c == b'l'
    then some (pos 1, pos 0)
    else none
delta (other o) = none

module _ {g : Geo} {w : Widgets} where
  -- The cursor of the tree is a node that has a parent and no children.
  pub record CursorLeaf (t : Tree g w) : Type 0 where
    pub id : ℕ
    pub parent_id : ℕ
    pub n : Inode g (TreeNode w)
    pub parent : Inode g (TreeNode w)
    pub at : t.cursor_id ≡ some id
    pub leaf : IsLeaf t.base id parent_id n parent

  -- What a key press for the move `(x, y)` did: a bounded move of the cursor, and nothing else.
  pub record CursorMoves (t : Tree g w) (c : CursorLeaf t) (x y : ℤ) (r : Outcome (Tree g w))
      : Type 0 where
    pub after : Tree g w
    pub returns : r ≡ ok after
    pub moved : BoundedMoves t.base c.id c.n c.parent x y (Itree.bounded_move_by t.base c.id x y)
    pub base : after.base ≡ moved.moves.after
    pub cursor_id : after.cursor_id ≡ t.cursor_id
    pub window_ids : after.window_ids ≡ t.window_ids

  bounded_move_by-CursorMoves :
      (t : Tree g w) (c : CursorLeaf t) (x y : ℤ)
      → CursorMoves t c x y (do r ← bounded_move_by t c.id x y; ok r.0)
  unfolding bounded_move_by
  bounded_move_by-CursorMoves t c x y =
      let b = bounded_move_by-BoundedMoves t.base c.id c.parent_id c.n c.parent x y c.leaf in
      record {
        after = record t { base = b.moves.after };
        returns = rw b.moves.returns refl;
        moved = b;
        base = refl;
        cursor_id = refl;
        window_ids = refl;
      }

  module _ {k : KeyTypes} where
    press_key-eq :
        (t : Tree g w) (c : CursorLeaf t) (code : KeyCode k) (x y : ℤ)
        → delta code ≡ some (x, y)
        → press_key code t ≡ (do r ← bounded_move_by t c.id x y; ok r.0)
    unfolding press_key bounded_move_up_by bounded_move_down_by bounded_move_left_by
        bounded_move_right_by ◌-ℤ◌
    press_key-eq t c code x y e = ground (arith, c.at)

    -- A key that asks for a move, where the cursor has a parent and no children, makes a bounded move
    -- of the cursor by one cell, and leaves the rest of the tree as it was.
    pub press_key-CursorMoves :
        (t : Tree g w) (c : CursorLeaf t) (code : KeyCode k) (x y : ℤ)
        → delta code ≡ some (x, y)
        → CursorMoves t c x y (press_key code t)
    press_key-CursorMoves t c code x y e =
        rw (press_key-eq t c code x y e) (bounded_move_by-CursorMoves t c x y)

    -- Any other key, or a key in a tree without a cursor, leaves the tree as it was.
    pub press_key-still :
        (t : Tree g w) (code : KeyCode k)
        → (t.cursor_id ≡ none) ⊎ (delta code ≡ none)
        → press_key code t ≡ ok t
    unfolding press_key
    press_key-still t code h = ground (arith, h)

  -- After the move the cursor still has a parent and no children.
  pub CursorMoves-CursorLeaf :
      (t : Tree g w) (c : CursorLeaf t) (x y : ℤ) {r : Outcome (Tree g w)}
      → (m : CursorMoves t c x y r) → CursorLeaf m.after
  CursorMoves-CursorLeaf t c x y m =
      let v = m.moved.moves in
      let l = c.leaf in
      record {
        id = c.id;
        parent_id = c.parent_id;
        n = v.moved;
        parent = c.parent;
        at = ground (arith, m.cursor_id, c.at);
        leaf = record {
          found = ground (arith, m.base, v.nodes c.id);
          named = ground (arith, v.named, l.named);
          parent_found = ground (arith, m.base, v.nodes c.parent_id, l.parent_found, l.apart);
          parent_of = ground (arith, m.base, v.parents, l.parent_of);
          apart = l.apart;
          childless = ground (arith, m.base, v.children, l.childless);
          fits = l.fits;
        };
      }
