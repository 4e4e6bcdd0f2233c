-- ===== src/State/Mode/Sets.antt =====
-- Sets of modes: what they hold after each operation, and how many modes they count.
use rsvim.Prelude.{
  ◌+◌, ◌≡◌, refl, ◌↔◌, true, false, not, ◌&&◌, ◌||◌, if◌then◌else◌, List, [], ◌∷◌, length, arith,
}
use rsvim.State.Mode.{
  Mode, Modes, mode_eq, mem, insert, remove, insert_all, set, unset, extend, len, contains,
  from_vec,
}

pub mode_eq_iff : (a b : Mode) → (mode_eq a b ≡ true) ↔ (a ≡ b)
unfolding mode_eq
mode_eq_iff a b = ground arith

-- No mode twice.
abbrev pub Unique : List Mode → Type 0
Unique [] = Unit
Unique (m ∷ ms) = (mem m ms ≡ false) × Unique ms

mem-insert : (m k : Mode) (ks : List Mode) → mem k (insert m ks).0 ≡ (mode_eq k m || mem k ks)
unfolding insert mem
mem-insert m k ks = ground (arith, mode_eq_iff k m)

Unique-insert : (m : Mode) (ks : List Mode) → Unique ks → Unique (insert m ks).0
unfolding insert mem
Unique-insert m ks u = ground arith

mem-remove : (m k : Mode) (ks : List Mode) → mem k (remove m ks).0 ≡ (not (mode_eq k m) && mem k ks)
unfolding remove mem
mem-remove m k [] = ground arith
mem-remove m k (j ∷ js) =
    ground (arith, mem-remove m k js, mode_eq_iff k m, mode_eq_iff m j, mode_eq_iff k j)

mem-insert_all : (ms ks : List Mode) (k : Mode) → mem k (insert_all ms ks) ≡ (mem k ms || mem k ks)
unfolding insert_all mem
mem-insert_all [] ks k = refl
mem-insert_all (m ∷ ms) ks k =
    ground (arith, mem-insert_all ms (insert m ks).0 k, mem-insert m k ks)

Unique-insert_all : (ms ks : List Mode) → Unique ks → Unique (insert_all ms ks)
unfolding insert_all
Unique-insert_all [] ks u = u
Unique-insert_all (m ∷ ms) ks u = Unique-insert_all ms (insert m ks).0 (Unique-insert m ks u)

Unique-remove : (m : Mode) (ks : List Mode) → Unique ks → Unique (remove m ks).0
unfolding remove mem
Unique-remove m [] u = tt
Unique-remove m (k ∷ ks) u = ground (arith, Unique-remove m ks, mem-remove m k ks)

remove_flag : (m : Mode) (ks : List Mode) → (remove m ks).1 ≡ mem m ks
unfolding remove mem
remove_flag m [] = refl
remove_flag m (k ∷ ks) = ground (arith, remove_flag m ks)

length-remove_absent :
    (m : Mode) (ks : List Mode) → mem m ks ≡ false → length (remove m ks).0 ≡ length ks
unfolding remove mem
length-remove_absent m [] h = refl
length-remove_absent m (k ∷ ks) h = ground (arith, length-remove_absent m ks)

length-remove :
    (m : Mode) (ks : List Mode)
    → Unique ks
    → length (remove m ks).0 + (if mem m ks then 1 else 0) ≡ length ks
unfolding remove mem
length-remove m [] u = refl
length-remove m (k ∷ ks) u =
    ground (arith, length-remove m ks, length-remove_absent m ks, mode_eq_iff m k)

-- `set` tells whether the mode was absent, and adds it: the set holds it and the modes it held, and
-- counts one more exactly if it was absent.
pub set_lem :
    (ms : Modes) (m : Mode)
    → Unique ms.values
    → ((k : Mode) → contains (set ms m).0 k ≡ (mode_eq k m || contains ms k))
      × ((set ms m).1 ≡ not (contains ms m))
      × (len (set ms m).0 ≡ len ms + (if contains ms m then 0 else 1))
      × Unique (set ms m).0.values
unfolding set contains len insert
set_lem ms m u =
    (λ k. mem-insert m k ms.values, ground arith, ground arith, Unique-insert m ms.values u)

-- `unset` tells whether the mode was present, and removes it: the set holds the other modes that it
-- held, and counts one less exactly if it was present.
pub unset_lem :
    (ms : Modes) (m : Mode)
    → Unique ms.values
    → ((k : Mode) → contains (unset ms m).0 k ≡ (not (mode_eq k m) && contains ms k))
      × ((unset ms m).1 ≡ contains ms m)
      × (len (unset ms m).0 + (if contains ms m then 1 else 0) ≡ len ms)
      × Unique (unset ms m).0.values
unfolding unset contains len
unset_lem ms m u = (
  λ k. mem-remove m k ms.values,
  remove_flag m ms.values,
  length-remove m ms.values u,
  Unique-remove m ms.values u,
)

-- The set made from a vector holds its modes and no others, each once; extending a set with it adds
-- its modes to those of the set.
pub extend-from_vec :
    (ms : Modes) (modes : List Mode)
    → Unique ms.values
    → ((k : Mode) → contains (from_vec modes) k ≡ mem k modes)
      × ((k : Mode) → contains (extend ms (from_vec modes)) k ≡ (mem k modes || contains ms k))
      × Unique (from_vec modes).values
      × Unique (extend ms (from_vec modes)).values
unfolding extend contains from_vec mem
extend-from_vec ms modes u =
    let made = insert_all modes [] in
    (
      λ k. ground (arith, mem-insert_all modes [] k),
      λ k. ground (arith, mem-insert_all modes [] k, mem-insert_all made ms.values k),
      Unique-insert_all modes [] tt,
      Unique-insert_all made ms.values u,
    )
