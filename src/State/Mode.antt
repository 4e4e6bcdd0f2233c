-- ===== src/State/Mode.antt =====
-- rsvim_core/src/state/mode.rs: the editing modes, their names, and sets of modes. A `HashSet` is a
-- list without repetitions, whose order is not observed.
pub mod Names
pub mod Sets
use Prim.Native.String.{String}
use Prim.Native.Nat.{compare, Ordering}
use text.Mathlib.Text.{◌==◌}
use package.rsvim.Prelude.{
  ℕ, Bool, true, false, not, ◌||◌, if◌then◌else◌, ◌⊎◌, inl, inr, List, [], ◌∷◌, length,
}

pub data Mode : Type 0 where
  normal : Mode
  visual : Mode
  select : Mode
  operator_pending : Mode
  insert_mode : Mode
  command_line : Mode
  terminal : Mode

-- The number of the variant, by which the derived `PartialEq` and `Hash` tell modes apart.
abbrev pub index : Mode → ℕ
index normal = 0
index visual = 1
index select = 2
index operator_pending = 3
index insert_mode = 4
index command_line = 5
index terminal = 6

-- `impl Display`
unfoldable pub to_string : Mode → String
to_string normal = "Normal"
to_string visual = "Visual"
to_string select = "Select"
to_string operator_pending = "Operator-pending"
to_string insert_mode = "Insert"
to_string command_line = "Command-line"
to_string terminal = "Terminal"

-- `impl FromStr`, and the two `impl TryFrom` that call it.
unfoldable pub from_str : String → Mode ⊎ String
from_str s =
    if s == "Normal"
    then inl normal
    else if s == "Visual"
    then inl visual
    else if s == "Select"
    then inl visual
    else if s == "Operator-pending"
    then inl operator_pending
    else if s == "Insert"
    then inl insert_mode
    else if s == "Command-line"
    then inl command_line
    else if s == "Terminal"
    then inl terminal
    else inr "Invalid Mode name"

unfoldable pub all : List Mode
all = normal ∷ visual ∷ select ∷ operator_pending ∷ insert_mode ∷ command_line ∷ terminal ∷ []

pub record Modes : Type 0 where
  pub values : List Mode

unfoldable pub mode_eq : Mode → Mode → Bool
mode_eq a b = elim (compare (index a) (index b)) [ Ordering.eq ↦ true | _ ↦ false ]

-- `contains`, `insert` and `remove` of the set. The flags of the last two say whether it changed.
unfoldable pub mem : Mode → List Mode → Bool
mem m [] = false
mem m (k ∷ ks) = mode_eq m k || mem m ks

unfoldable pub insert : Mode → List Mode → List Mode × Bool
insert m ks = if mem m ks then (ks, false) else (m ∷ ks, true)

unfoldable pub remove : Mode → List Mode → List Mode × Bool
remove m [] = ([], false)
remove m (k ∷ ks) =
    let rest = remove m ks in if mode_eq m k then (rest.0, true) else (k ∷ rest.0, rest.1)

unfoldable pub new : Modes
new = record { values = [] }

unfoldable pub with_mode : Modes → Mode → Modes
with_mode ms mode = record { values = (insert mode ms.values).0 }

unfoldable pub without : Modes → Mode → Modes
without ms mode = record { values = (remove mode ms.values).0 }

unfoldable pub set : Modes → Mode → Modes × Bool
set ms mode = let r = insert mode ms.values in (record { values = r.0 }, r.1)

unfoldable pub unset : Modes → Mode → Modes × Bool
unset ms mode = let r = remove mode ms.values in (record { values = r.0 }, r.1)

-- The values of a list, inserted one by one.
unfoldable pub insert_all : List Mode → List Mode → List Mode
insert_all [] ks = ks
insert_all (m ∷ ms) ks = insert_all ms (insert m ks).0

unfoldable pub extend : Modes → Modes → Modes
extend ms modes = record { values = insert_all modes.values ms.values }

unfoldable pub is_empty : Modes → Bool
is_empty ms = elim ms.values [ [] ↦ true | k ∷ ks ↦ false ]

unfoldable pub len : Modes → ℕ
len ms = length ms.values

unfoldable pub contains : Modes → Mode → Bool
contains ms mode = mem mode ms.values

-- `impl From<Mode>`
unfoldable pub from_mode : Mode → Modes
from_mode mode = record { values = (insert mode []).0 }

-- `impl From<Vec<Mode>>`
unfoldable pub from_vec : List Mode → Modes
from_vec modes = record { values = insert_all modes [] }
