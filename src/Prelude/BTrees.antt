-- ===== src/Prelude/BTrees.antt =====
-- Ordered maps of the source (`BTreeMap`) from numbers, as association lists in the order of the keys.
use Prim.Native.Nat.{ℕ, ◌+◌, ◌<◌, compare, Ordering}
use mathlib.Core.Path.{◌≡◌, refl}
use mathlib.Core.Option.{Option, none, some}
use mathlib.Core.List.{[], ◌∷◌, ◌++◌}
use native.Mathlib.Omega.{arith}
use rsvim.Prelude.Maps.{Map}

module _ {V : Type 0} where
  abbrev pub insert_ordered : ℕ → V → Map V → Map V
  insert_ordered k v [] = (k, v) ∷ []
  insert_ordered k v ((j, w) ∷ m) = elim (compare k j) [
    | Ordering.lt ↦ (k, v) ∷ (j, w) ∷ m
    | Ordering.eq ↦ (k, v) ∷ m
    | Ordering.gt ↦ (j, w) ∷ insert_ordered k v m
  ]

  abbrev pub first_key_value : Map V → Option (ℕ × V)
  first_key_value [] = none
  first_key_value (e ∷ m) = some e

  abbrev pub last_key_value : Map V → Option (ℕ × V)
  last_key_value [] = none
  last_key_value (e ∷ []) = some e
  last_key_value (e ∷ e' ∷ m) = last_key_value (e' ∷ m)

  -- Every key of the map is below `k`.
  abbrev pub KeysBelow : ℕ → Map V → Type 0
  KeysBelow k [] = Unit
  KeysBelow k ((j, w) ∷ m) = (j < k) × KeysBelow k m

  pub insert_ordered_end :
      (k : ℕ) (v : V) (m : Map V) → KeysBelow k m → insert_ordered k v m ≡ m ++ (k, v) ∷ []
  insert_ordered_end k v [] h = refl
  insert_ordered_end k v ((j, w) ∷ m) (lt, h) = ground (arith, insert_ordered_end k v m)

  pub KeysBelow-snoc :
      (k : ℕ) (v : V) (rows : Map V) → KeysBelow k rows → KeysBelow (k + 1) (rows ++ (k, v) ∷ [])
  KeysBelow-snoc k v [] h = (omega arith, tt)
  KeysBelow-snoc k v ((j, u) ∷ rows) (lt, h) = (omega arith, KeysBelow-snoc k v rows h)
