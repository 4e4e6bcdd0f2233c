-- ===== src/Tree/Widgets.antt =====
-- rsvim_core/src/ui/tree.rs: the tree of widgets, with its windows and its cursor. The data of the
-- widgets are parameters; the options of the windows are in Tree/Options. `window_ids` is a `BTreeSet`, whose
-- order is not observed.
pub mod Guards
pub mod Current
use package.rsvim.Prelude.{
  ℕ, zero, suc, ◌+◌, Bool, true, false, ◌==◌, ◌||◌, if◌then◌else◌, Option, none, some, List, [],
  ◌∷◌, length, Outcome, ok, panic, stuck, ◌>>=◌, ◌>>◌, unwrap, ℤ, pos, ◌-ℤ◌, lookup,
}
use package.rsvim.Cart.{U16Size}
use package.rsvim.Tree.Geo.{Geo}
use package.rsvim.Tree.Itree
use package.rsvim.Tree.Itree.{Inode, Itree, new_inode}

-- Sets of numbers.
abbrev pub contains : ℕ → List ℕ → Bool
contains id [] = false
contains id (x ∷ xs) = id == x || contains id xs

abbrev pub insert_id : ℕ → List ℕ → List ℕ
insert_id id xs = if contains id xs then xs else (id ∷ xs)

abbrev pub remove_id : ℕ → List ℕ → List ℕ
remove_id id [] = []
remove_id id (x ∷ xs) = if id == x then remove_id id xs else (x ∷ remove_id id xs)

-- `self.cursor_id == Some(*id)`
abbrev pub is_some_id : Option ℕ → ℕ → Bool
is_some_id none id = false
is_some_id (some c) id = c == id

-- The data of the widgets.
pub record Widgets : Type 1 where
  pub RootContainer : Type 0
  pub Window : Type 0
  pub Cursor : Type 0

module _ (w : Widgets) where
  pub data TreeNode : Type 0 where
    root_container : w.RootContainer → TreeNode
    window : w.Window → TreeNode
    cursor : w.Cursor → TreeNode

module _ (g : Geo) (w : Widgets) where
  pub record Tree : Type 0 where
    pub base : Itree g (TreeNode w)
    pub cursor_id : Option ℕ
    pub window_ids : List ℕ

module _ {g : Geo} {w : Widgets} where
  unfoldable pub new : w.RootContainer → ℕ → U16Size → Tree g w
  unfolding new_inode Itree.new
  new root next_node_id terminal_size =
      let shape =
        g.irect (record { x = pos 0; y = pos 0 })
          (record { x = pos terminal_size.width; y = pos terminal_size.height }) in
      record {
        base = Itree.new (new_inode (root_container root) next_node_id shape);
        cursor_id = none;
        window_ids = [];
      }

  abbrev pub node : Tree g w → ℕ → Option (Inode g (TreeNode w))
  node t id = Itree.node t.base id

  unfoldable pub set_cursor_id : Tree g w → Option ℕ → Tree g w
  set_cursor_id t cursor_id = record t { cursor_id = cursor_id }

  -- `if let Some(TreeNode::Window(_w)) = node`
  abbrev pub is_window : Option (Inode g (TreeNode w)) → Bool
  is_window none = false
  is_window (some n) = elim n.value [
    | root_container r ↦ false
    | window v ↦ true
    | cursor c ↦ false
  ]

  -- The `while let` loop of `current_window_id`, one round for each entry of the parents and one more.
  unfoldable pub window_loop : ℕ → Tree g w → ℕ → Outcome (Option ℕ)
  window_loop zero t id = stuck
  window_loop (suc fuel) t id = elim (lookup id t.base.parent_ids) [
    | none ↦ ok none
    | some parent_id ↦
        if is_window (node t parent_id) then ok (some parent_id) else window_loop fuel t parent_id
  ]

  unfoldable pub current_window_id : Tree g w → Outcome (Option ℕ)
  current_window_id t = elim t.cursor_id [
    | none ↦ ok none
    | some id ↦ window_loop (length t.base.parent_ids + 1) t id
  ]

  unfoldable pub insert_guard : Tree g w → Inode g (TreeNode w) → ℕ → Outcome (Tree g w)
  insert_guard t n parent_id = elim n.value [
    | cursor c ↦ (do
      parent_node ← unwrap (node t parent_id)
      if is_window (some parent_node) then ok (record t { cursor_id = some n.id }) else panic)
    | window v ↦ ok (record t { window_ids = insert_id n.id t.window_ids })
    | root_container r ↦ ok t
  ]

  unfoldable pub remove_guard : Tree g w → ℕ → Tree g w
  remove_guard t id = record t {
    cursor_id = if is_some_id t.cursor_id id then none else t.cursor_id;
    window_ids = remove_id id t.window_ids;
  }

  unfoldable pub insert :
      Tree g w → ℕ → Inode g (TreeNode w) → Outcome (Tree g w × Option (Inode g (TreeNode w)))
  insert t parent_id child_node = do
    guarded ← insert_guard t child_node parent_id
    r ← Itree.insert guarded.base parent_id child_node
    ok (record guarded { base = r.0 }, r.1)

  unfoldable pub bounded_insert :
      Tree g w → ℕ → Inode g (TreeNode w) → Outcome (Tree g w × Option (Inode g (TreeNode w)))
  bounded_insert t parent_id child_node = do
    guarded ← insert_guard t child_node parent_id
    r ← Itree.bounded_insert guarded.base parent_id child_node
    ok (record guarded { base = r.0 }, r.1)

  unfoldable pub remove : Tree g w → ℕ → Outcome (Tree g w × Option (Inode g (TreeNode w)))
  unfolding remove_guard
  remove t id = do
    let guarded = remove_guard t id
    r ← Itree.remove guarded.base id
    ok (record guarded { base = r.0 }, r.1)

  unfoldable pub bounded_move_by : Tree g w → ℕ → ℤ → ℤ → Outcome (Tree g w × Option g.IRect)
  bounded_move_by t id x y = do
    r ← Itree.bounded_move_by t.base id x y
    ok (record t { base = r.0 }, r.1)

  unfoldable pub bounded_move_y_by : Tree g w → ℕ → ℤ → Outcome (Tree g w × Option g.IRect)
  bounded_move_y_by t id rows = bounded_move_by t id (pos 0) rows

  unfoldable pub bounded_move_up_by : Tree g w → ℕ → ℕ → Outcome (Tree g w × Option g.IRect)
  bounded_move_up_by t id rows = bounded_move_by t id (pos 0) (pos 0 -ℤ pos rows)

  unfoldable pub bounded_move_down_by : Tree g w → ℕ → ℕ → Outcome (Tree g w × Option g.IRect)
  bounded_move_down_by t id rows = bounded_move_by t id (pos 0) (pos rows)

  unfoldable pub bounded_move_x_by : Tree g w → ℕ → ℤ → Outcome (Tree g w × Option g.IRect)
  bounded_move_x_by t id cols = bounded_move_by t id cols (pos 0)

  unfoldable pub bounded_move_left_by : Tree g w → ℕ → ℕ → Outcome (Tree g w × Option g.IRect)
  bounded_move_left_by t id cols = bounded_move_by t id (pos 0 -ℤ pos cols) (pos 0)

  unfoldable pub bounded_move_right_by : Tree g w → ℕ → ℕ → Outcome (Tree g w × Option g.IRect)
  bounded_move_right_by t id cols = bounded_move_by t id (pos cols) (pos 0)
