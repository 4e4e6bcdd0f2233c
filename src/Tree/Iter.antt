-- ===== src/Tree/Iter.antt =====
-- rsvim_core/src/ui/tree/internal/itree.rs: the iterator over the nodes of a tree, breadth first.
use rsvim.Prelude.{
  ℕ, zero, suc, Option, some, none, List, [], ◌∷◌, ◌++◌, length, Outcome, ok, stuck, ◌>>=◌, lookup,
}
use rsvim.Tree.Geo.{Geo}
use rsvim.Tree.Itree.{Inode, Itree, node}

module _ {g : Geo} {V : Type 0} where
  -- The children that have a node, which `next` pushes to the back of the queue.
  unfoldable pub iter_children : Itree g V → List ℕ → List ℕ
  iter_children t [] = []
  iter_children t (child_id ∷ ids) =
      let rest = iter_children t ids in
      elim (node t child_id) [ some n ↦ child_id ∷ rest | none ↦ rest ]

  -- `ItreeIter::next`, with the queue after it.
  unfoldable pub iter_next : Itree g V → List ℕ → List ℕ × Option (Inode g V)
  iter_next t [] = ([], none)
  iter_next t (id ∷ queue) = (
    elim (lookup id t.children_ids) [
      | some children_ids ↦ queue ++ iter_children t children_ids
      | none ↦ queue
    ],
    node t id,
  )

  -- `for node in tree.iter()`, from a queue on: the loop ends at the first `None`.
  unfoldable pub iter_from : ℕ → Itree g V → List ℕ → Outcome (List (Inode g V))
  iter_from zero t queue = stuck
  iter_from (suc fuel) t queue =
      let r = iter_next t queue in
      elim r.1 [ none ↦ ok [] | some n ↦ (do ns ← iter_from fuel t r.0; ok (n ∷ ns)) ]

  -- `Itree::iter`, a round for each node and one more.
  unfoldable pub iter : Itree g V → Outcome (List (Inode g V))
  iter t = iter_from (suc (length t.nodes)) t (t.root_id ∷ [])
