-- ===== src/Js/Names.antt =====
-- Texts of the source (`String`) as lists of code points, with their equality, and the maps of
-- rsvim_core/src/js (`HashMap<String, T>`) as association lists with one entry for each text.
use Prim.Native.Char.{code}
use Prim.Native.String.{String}
use rsvim.Prelude.{
  ℕ, ◌≡◌, ◌↔◌, refl, Bool, true, false, ◌==◌, ◌&&◌, ◌||◌, if◌then◌else◌, Option, some, none, List,
  [], ◌∷◌, arith,
}

abbrev pub Name : Type 0
Name = List ℕ

-- The code points of a literal.
abbrev pub codes : String → Name
codes String.[] = []
codes (String.◌∷◌ c s) = code c ∷ codes s

unfoldable pub name_eq : Name → Name → Bool
name_eq [] [] = true
name_eq [] (b ∷ bs) = false
name_eq (a ∷ s) [] = false
name_eq (a ∷ s) (b ∷ t) = a == b && name_eq s t

pub name_eq_iff : (s t : Name) → (name_eq s t ≡ true) ↔ (s ≡ t)
unfolding name_eq
name_eq_iff [] [] = ground arith
name_eq_iff [] (b ∷ t) = ground arith
name_eq_iff (a ∷ s) [] = ground arith
name_eq_iff (a ∷ s) (b ∷ t) = ground (arith, name_eq_iff s t)

-- `str::starts_with`
unfoldable pub starts_with : Name → Name → Bool
starts_with s [] = true
starts_with [] (b ∷ prefix) = false
starts_with (a ∷ s) (b ∷ prefix) = a == b && starts_with s prefix

unfoldable pub contains_name : Name → List Name → Bool
contains_name k [] = false
contains_name k (j ∷ names) = name_eq k j || contains_name k names

abbrev pub NameMap : Type 0 → Type 0
NameMap V = List (Name × V)

module _ {V : Type 0} where
  unfoldable pub lookup_name : Name → NameMap V → Option V
  lookup_name k [] = none
  lookup_name k ((j, v) ∷ m) = if name_eq k j then some v else lookup_name k m

  unfoldable pub insert_name : Name → V → NameMap V → NameMap V
  insert_name k v [] = (k, v) ∷ []
  insert_name k v ((j, w) ∷ m) = if name_eq k j then (k, v) ∷ m else ((j, w) ∷ insert_name k v m)

  unfoldable pub has_name : Name → NameMap V → Bool
  has_name k m = elim (lookup_name k m) [ some v ↦ true | none ↦ false ]

  pub has_name-some :
      (k : Name) (m : NameMap V) (v : V) → lookup_name k m ≡ some v → has_name k m ≡ true
  unfolding has_name
  has_name-some k m v h = ground arith

  pub has_name_inv :
      (k : Name) (m : NameMap V) → has_name k m ≡ true → (v : V) × (lookup_name k m ≡ some v)
  unfolding has_name
  has_name_inv k m h = go (lookup_name k m) refl
    where
      go : (r : Option V) → lookup_name k m ≡ r → (v : V) × (lookup_name k m ≡ some v)
      go (some v) e = (v, e)
      go none e = absurd (ground arith)

  pub lookup_name-insert_name :
      (k j : Name) (v : V) (m : NameMap V)
      → lookup_name j (insert_name k v m) ≡ (if name_eq j k then some v else lookup_name j m)
  unfolding lookup_name insert_name
  lookup_name-insert_name k j v [] = refl
  lookup_name-insert_name k j v ((i, w) ∷ m) =
      ground
        (arith, name_eq_iff k i, name_eq_iff j k, name_eq_iff j i, lookup_name-insert_name k j v m)
