-- ===== src/Tree/Itree/Remove.antt =====
-- `Itree::remove`: what it changes, and that it takes an insertion back.
use rsvim.Prelude.{
  ℕ, ◌+◌, ◌≤◌, ◌<◌, ◌≡◌, ◌≢◌, refl, sym, ap, Bool, true, false, ltb, ◌==◌, not, if◌then◌else◌,
  Option, none, some, List, [], ◌∷◌, ◌++◌, Outcome, ok, arith, Map, lookup, contains_key,
  lookup-insert, lookup-remove, contains_key-some,
}
use rsvim.Prelude
use rsvim.Tree.Geo.{Geo}
use rsvim.Tree.Clip.{FitsU16}
use rsvim.Tree.Itree.{Inode, Itree, node, insert_by_zindex, insert, remove, remove_first, unlink}
use rsvim.Tree.Itree.Insert.{insert-Inserts}

abbrev pub Absent : ℕ → List ℕ → Type 0
Absent id [] = Unit
Absent id (c ∷ cs) = (c ≢ id) × Absent id cs

module _ {g : Geo} {V : Type 0} where
  remove_first-insert_by_zindex :
      (nodes : Map (Inode g V)) (child_id child_zindex : ℕ) (siblings : List ℕ)
      → Absent child_id siblings
      → remove_first child_id (insert_by_zindex nodes child_id child_zindex siblings) ≡ siblings
  unfolding insert_by_zindex remove_first
  remove_first-insert_by_zindex nodes child_id child_zindex [] h = ground arith
  remove_first-insert_by_zindex nodes child_id child_zindex (c ∷ cs) (ne, h) =
      ground (arith, remove_first-insert_by_zindex nodes child_id child_zindex cs h)

  -- What a removal of a node with a parent did.
  pub record Removes (t : Itree g V) (id parent_id : ℕ) (n : Inode g V) (siblings : List ℕ)
      (r : Outcome (Itree g V × Option (Inode g V))) : Type 0 where
    pub after : Itree g V
    pub returns : r ≡ ok (after, some n)
    pub nodes : (j : ℕ) → node after j ≡ (if j == id then none else node t j)
    pub parents :
        (j : ℕ) → lookup j after.parent_ids ≡ (if j == id then none else lookup j t.parent_ids)
    pub children :
        (j : ℕ)
        → lookup j after.children_ids
          ≡ (if j == parent_id then some (remove_first id siblings) else lookup j t.children_ids)

  pub remove-Removes :
      (t : Itree g V) (id parent_id : ℕ) (n : Inode g V) (siblings : List ℕ)
      → id ≢ t.root_id
      → node t id ≡ some n
      → lookup id t.parent_ids ≡ some parent_id
      → lookup parent_id t.children_ids ≡ some siblings
      → Removes t id parent_id n siblings (remove t id)
  unfolding remove unlink
  remove-Removes t id parent_id n siblings ne en ep ec = record {
    after = record t {
      nodes = Prelude.remove id t.nodes;
      parent_ids = Prelude.remove id t.parent_ids;
      children_ids = Prelude.insert parent_id (remove_first id siblings) t.children_ids;
    };
    returns = ground (arith, en, ep, ec);
    nodes = λ j. lookup-remove id j t.nodes;
    parents = λ j. lookup-remove id j t.parent_ids;
    children = λ j. lookup-insert parent_id j (remove_first id siblings) t.children_ids;
  }

  -- A node that is new to the tree, inserted under one that fits `u16` and removed again, is given
  -- back with its own data; then every node, every parent and every list of children reads as before
  -- the insertion, but for the empty list of children that the removed node keeps.
  pub remove-insert :
      (t : Itree g V) (parent_id : ℕ) (parent child : Inode g V) (siblings : List ℕ)
      → node t parent_id ≡ some parent
      → lookup parent_id t.children_ids ≡ some siblings
      → FitsU16 g parent.actual_shape
      → node t child.id ≡ none
      → lookup child.id t.parent_ids ≡ none
      → Absent child.id siblings
      → child.id ≢ t.root_id
      → (t' : Itree g V) × (t'' : Itree g V) × (n : Inode g V) × (insert t parent_id child
          ≡ ok (t', none))
        × (remove t' child.id ≡ ok (t'', some n))
        × (n.value ≡ child.value)
        × ((j : ℕ) → node t'' j ≡ node t j)
        × ((j : ℕ) → lookup j t''.parent_ids ≡ lookup j t.parent_ids)
        × ((j : ℕ)
            → lookup j t''.children_ids
              ≡ (if j == child.id then some [] else lookup j t.children_ids))
  remove-insert t parent_id parent child siblings en ec fits fresh orphan away root =
      let ne : child.id ≢ parent_id = ground (arith, en, fresh) in
      let i = insert-Inserts t parent_id parent child siblings en ec ne fits in
      let sib = insert_by_zindex t.nodes child.id child.zindex siblings in
      let r =
        remove-Removes i.after child.id parent_id i.inserted sib (ground (arith, i.root))
          (ground (arith, i.nodes child.id)) (ground (arith, i.parents child.id))
          (ground (arith, i.children parent_id)) in
      (
        i.after,
        r.after,
        i.inserted,
        ground (arith, i.returns, fresh),
        r.returns,
        i.value,
        λ j. ground (arith, r.nodes j, i.nodes j, fresh),
        λ j. ground (arith, r.parents j, i.parents j, orphan),
        λ j. ground (
          arith,
          r.children j,
          i.children j,
          remove_first-insert_by_zindex t.nodes child.id child.zindex siblings away,
          ec,
        ),
      )
