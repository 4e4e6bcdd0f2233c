-- ===== src/Tree/Itree/Insert.antt =====
-- `Itree::insert`: what it changes, and the order of the siblings.
use rsvim.Prelude.{
  ℕ, ◌+◌, ◌≤◌, ◌<◌, ◌≡◌, ◌≢◌, refl, sym, ap, Bool, true, false, ltb, ◌==◌, not, if◌then◌else◌, ◌⊎◌,
  inl, inr, Option, none, some, List, [], ◌∷◌, ◌++◌, Outcome, ok, arith, Map, lookup, contains_key,
  lookup-insert, lookup-remove, contains_key-some,
}
use rsvim.Prelude
use native.Mathlib.Decide.{dec_lt}
use rsvim.Tree.Geo.{Geo}
use rsvim.Tree.Clip.{Clips, FitsU16, make_actual_shape-Clips}
use rsvim.Tree.Shapes.{bound_shape}
use rsvim.Tree.Itree.{Inode, Itree, node, insert_by_zindex, insert, update_each, bounded_insert}

-- `P` holds of the z-index of every node of a list.
abbrev pub AllZindex : (ℕ → Type 0) → (ℕ → ℕ) → List ℕ → Type 0
AllZindex P z [] = Unit
AllZindex P z (c ∷ cs) = P (z c) × AllZindex P z cs

-- The z-indices of a list go up, from `low` on.
abbrev pub AreSorted : (ℕ → ℕ) → ℕ → List ℕ → Type 0
AreSorted z low [] = Unit
AreSorted z low (c ∷ cs) = (low ≤ z c) × AreSorted z (z c) cs

above :
    (z : ℕ → ℕ) (low l : ℕ) (cs : List ℕ)
    → AreSorted z l cs
    → low < l
    → AllZindex (λ k. low < k) z cs
above z low l [] s h = tt
above z low l (c ∷ cs) (a, s) h = (omega arith, above z low (z c) cs s (omega arith))

module _ {g : Geo} {V : Type 0} where
  -- `z` reads the z-indices of the nodes of a list.
  abbrev pub Reads : Map (Inode g V) → (ℕ → ℕ) → List ℕ → Type 0
  Reads nodes z [] = Unit
  Reads nodes z (c ∷ cs) =
      ((n : Inode g V) × (lookup c nodes ≡ some n) × (n.zindex ≡ z c)) × Reads nodes z cs

  -- Among siblings that are sorted by their z-indices, the inserted child stands behind those with
  -- its own z-index or a lower one, and in front of the others, which keep their order.
  pub insert_by_zindex-split :
      (nodes : Map (Inode g V)) (z : ℕ → ℕ) (child_id child_zindex low : ℕ) (siblings : List ℕ)
      → Reads nodes z siblings
      → AreSorted z low siblings
      → (before after : List ℕ) × (siblings ≡ before ++ after)
        × (insert_by_zindex nodes child_id child_zindex siblings ≡ before ++ child_id ∷ after)
        × AllZindex (λ k. k ≤ child_zindex) z before
        × AllZindex (λ k. child_zindex < k) z after
  unfolding insert_by_zindex
  insert_by_zindex-split nodes z child_id child_zindex low [] r s = ([], [], refl, refl, tt, tt)
  insert_by_zindex-split nodes z child_id child_zindex low (c ∷ cs) ((n, e, en), r) (a, s) =
      let (before, after, e1, e2, b, f) =
        insert_by_zindex-split nodes z child_id child_zindex (z c) cs r s in
      elim (dec_lt child_zindex (z c)) [
        | yes l ↦
            ([], c ∷ cs, refl, ground (arith, e, en), tt, (l, above z child_zindex (z c) cs s l))
        | no l ↦ (c ∷ before, after, ap (◌∷◌ c) e1, ground (arith, e, en, e2), (omega arith, b), f)
      ]

  -- No node of a list has a higher z-index than `zindex`; ids without a node are passed over.
  abbrev pub NoneAbove : Map (Inode g V) → ℕ → List ℕ → Type 0
  NoneAbove nodes zindex [] = Unit
  NoneAbove nodes zindex (c ∷ cs) =
      ((lookup c nodes ≡ none)
        ⊎ ((n : Inode g V) × (lookup c nodes ≡ some n) × (n.zindex ≤ zindex)))
      × NoneAbove nodes zindex cs

  -- A list is empty, or starts with a node of a higher z-index.
  abbrev pub StartsAbove : Map (Inode g V) → ℕ → List ℕ → Type 0
  StartsAbove nodes zindex [] = Unit
  StartsAbove nodes zindex (c ∷ cs) =
      (n : Inode g V) × (lookup c nodes ≡ some n) × (zindex < n.zindex)

  -- The siblings, which need not be sorted, with the child in front of the first one that has a higher
  -- z-index.
  pub record Placed (nodes : Map (Inode g V)) (child_id child_zindex : ℕ) (siblings placed : List ℕ)
      : Type 0 where
    pub before : List ℕ
    pub behind : List ℕ
    pub split : siblings ≡ before ++ behind
    pub joined : placed ≡ before ++ child_id ∷ behind
    pub none_above : NoneAbove nodes child_zindex before
    pub starts_above : StartsAbove nodes child_zindex behind

  Placed-passed :
      (nodes : Map (Inode g V)) (child_id child_zindex c : ℕ) (cs placed : List ℕ)
      → (lookup c nodes ≡ none)
        ⊎ ((n : Inode g V) × (lookup c nodes ≡ some n) × (n.zindex ≤ child_zindex))
      → Placed nodes child_id child_zindex cs placed
      → Placed nodes child_id child_zindex (c ∷ cs) (c ∷ placed)
  Placed-passed nodes child_id child_zindex c cs placed low p = record {
    before = c ∷ p.before;
    behind = p.behind;
    split = ap (◌∷◌ c) p.split;
    joined = ap (◌∷◌ c) p.joined;
    none_above = (low, p.none_above);
    starts_above = p.starts_above;
  }

  found_cases : (o : Option (Inode g V)) → (o ≡ none) ⊎ ((n : Inode g V) × (o ≡ some n))
  found_cases none = inl refl
  found_cases (some n) = inr (n, refl)

  insert_by_zindex-Placed :
      (nodes : Map (Inode g V)) (child_id child_zindex : ℕ) (siblings : List ℕ)
      → Placed nodes child_id child_zindex siblings
          (insert_by_zindex nodes child_id child_zindex siblings)
  unfolding insert_by_zindex
  insert_by_zindex-Placed nodes child_id child_zindex [] = record {
    before = [];
    behind = [];
    split = refl;
    joined = refl;
    none_above = tt;
    starts_above = tt;
  }
  insert_by_zindex-Placed nodes child_id child_zindex (c ∷ cs) =
      let rest = insert_by_zindex-Placed nodes child_id child_zindex cs in
      elim (found_cases (lookup c nodes)) [
        | inl missing ↦
            rw (missing, insert_by_zindex)
              (Placed-passed nodes child_id child_zindex c cs
                (insert_by_zindex nodes child_id child_zindex cs) (inl missing) rest)
        | inr (n, e) ↦ elim (dec_lt child_zindex n.zindex) [
          | yes higher ↦
              let test : ltb child_zindex n.zindex ≡ true = ground arith in
              rw (e, insert_by_zindex)
                (rw test (record {
                  before = [];
                  behind = c ∷ cs;
                  split = refl;
                  joined = refl;
                  none_above = tt;
                  starts_above = (n, e, higher);
                }))
          | no lower ↦
              let test : ltb child_zindex n.zindex ≡ false = ground arith in
              rw (e, insert_by_zindex)
                (rw test (
                  Placed-passed nodes child_id child_zindex c cs
                    (insert_by_zindex nodes child_id child_zindex cs) (inr (n, e, omega arith))
                    rest))
        ]
      ]

  -- What an insertion of `child` under `parent_id` did.
  pub record Inserts (t : Itree g V) (parent_id : ℕ) (parent child : Inode g V) (siblings : List ℕ)
      (r : Outcome (Itree g V × Option (Inode g V))) : Type 0 where
    pub after : Itree g V
    pub inserted : Inode g V
    pub returns : r ≡ ok (after, node t child.id)
    pub nodes : (j : ℕ) → node after j ≡ (if j == child.id then some inserted else node t j)
    pub depth : inserted.depth ≡ parent.depth + 1
    pub clipped : Clips g child.shape parent.actual_shape inserted.actual_shape
    pub shape : inserted.shape ≡ child.shape
    pub value : inserted.value ≡ child.value
    pub parents :
        (j : ℕ)
        → lookup j after.parent_ids
          ≡ (if j == child.id then some parent_id else lookup j t.parent_ids)
    pub placed :
        Placed t.nodes child.id child.zindex siblings
          (insert_by_zindex t.nodes child.id child.zindex siblings)
    pub children :
        (j : ℕ)
        → lookup j after.children_ids ≡ (
            if j == parent_id
            then some (insert_by_zindex t.nodes child.id child.zindex siblings)
            else if j == child.id
            then some []
            else lookup j t.children_ids)
    pub root : after.root_id ≡ t.root_id

  -- An insertion of a node under another one, with an actual shape that fits `u16`, returns the
  -- node that it replaces, links the child to its parent in both ways, without children of its own,
  -- sets its depth and clips its actual shape, and leaves the other nodes as they were. Among the
  -- children of the parent, which need not be sorted and keep their order, the child stands in front of
  -- the first one that has a higher z-index, or at the end.
  pub insert-Inserts :
      (t : Itree g V) (parent_id : ℕ) (parent child : Inode g V) (siblings : List ℕ)
      → node t parent_id ≡ some parent
      → lookup parent_id t.children_ids ≡ some siblings
      → child.id ≢ parent_id
      → FitsU16 g parent.actual_shape
      → Inserts t parent_id parent child siblings (insert t parent_id child)
  unfolding insert update_each
  insert-Inserts t parent_id parent child siblings en ec ne fits =
      let (actual, ea, clip) = make_actual_shape-Clips g child.shape parent.actual_shape fits in
      let cs = Prelude.insert child.id [] t.children_ids in
      let sib = insert_by_zindex t.nodes child.id child.zindex siblings in
      let cs' = Prelude.insert parent_id sib cs in
      let e1 : lookup parent_id cs ≡ some siblings =
        ground (arith, lookup-insert child.id parent_id [] t.children_ids) in
      let e2 : lookup child.id cs' ≡ some [] = ground (
        arith,
        lookup-insert child.id child.id [] t.children_ids,
        lookup-insert parent_id child.id sib cs,
      ) in
      let inserted : Inode g V = record child { depth = parent.depth + 1; actual_shape = actual } in
      record {
        after = record t {
          nodes = Prelude.insert child.id inserted t.nodes;
          parent_ids = Prelude.insert child.id parent_id t.parent_ids;
          children_ids = cs';
        };
        inserted = inserted;
        returns = ground (
          arith,
          contains_key-some parent_id t.nodes parent en,
          contains_key-some parent_id t.children_ids siblings ec,
          en,
          e1,
          e2,
          ea,
        );
        nodes = λ j. lookup-insert child.id j inserted t.nodes;
        depth = refl;
        clipped = clip;
        shape = refl;
        value = refl;
        parents = λ j. lookup-insert child.id j parent_id t.parent_ids;
        placed = insert_by_zindex-Placed t.nodes child.id child.zindex siblings;
        children = λ j.
            ground
              (arith, lookup-insert child.id j [] t.children_ids, lookup-insert parent_id j sib cs);
        root = refl;
      }

  -- A bounded insertion is the insertion of the child with its shape bounded by the parent.
  pub bounded_insert-eq :
      (t : Itree g V) (parent_id : ℕ) (parent child : Inode g V)
      → node t parent_id ≡ some parent
      → bounded_insert t parent_id child
        ≡ insert t parent_id
            (record child { shape = bound_shape g child.shape parent.actual_shape })
  unfolding bounded_insert
  bounded_insert-eq t parent_id parent child e =
      ground (arith, contains_key-some parent_id t.nodes parent e, e)
