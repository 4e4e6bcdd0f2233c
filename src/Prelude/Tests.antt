-- ===== src/Prelude/Tests.antt =====
-- Boolean tests on the native numbers, the conditional, and case splits that keep the equation.
use Prim.Native.Nat.{ℕ, ◌≤◌, ◌<◌, compare, Ordering}
use mathlib.Core.Path.{◌≡◌, refl}
use mathlib.Core.Logic.{◌↔◌, ◌⊎◌, inl, inr}
use mathlib.Core.Bool.{Bool, true, false}
use mathlib.Core.Path.{subst, sym}
use Prim.Native.Nat.{◌+◌}
use native.Mathlib.Omega.{arith}
use native.Mathlib.Decide.{dec_lt}

abbrev pub ltb : ℕ → ℕ → Bool
ltb a b = elim (compare a b) [ Ordering.lt ↦ true | _ ↦ false ]

abbrev pub leb : ℕ → ℕ → Bool
leb a b = elim (compare a b) [ Ordering.gt ↦ false | _ ↦ true ]

infix 50 ◌==◌
abbrev pub ◌==◌ : ℕ → ℕ → Bool
a == b = elim (compare a b) [ Ordering.eq ↦ true | _ ↦ false ]

infix 1 if◌then◌else◌
abbrev pub if◌then◌else◌ {ℓ} : {A : Type ℓ} → Bool → A → A → A
if true then x else y = x
if false then x else y = y

pub ltb→lt : (a b : ℕ) → ltb a b ≡ true → a < b
ltb→lt a b h = ground arith

pub lt→ltb : (a b : ℕ) → a < b → ltb a b ≡ true
lt→ltb a b h = ground arith

pub le→ltb : (a b : ℕ) → b ≤ a → ltb a b ≡ false
le→ltb a b h = ground arith

pub le→leb : (a b : ℕ) → a ≤ b → leb a b ≡ true
le→leb a b h = ground arith

pub ==_iff : (a b : ℕ) → ((a == b) ≡ true) ↔ (a ≡ b)
==_iff a b = ground arith

pub Bool-cases : (b : Bool) → (b ≡ true) ⊎ (b ≡ false)
Bool-cases true = inl refl
Bool-cases false = inr refl

-- A property of every number of a half-open range, from its first number and the rest.
pub range_cons :
    (P : ℕ → Type 0) (a b : ℕ)
    → P a
    → ((c : ℕ) → a + 1 ≤ c → c < b → P c)
    → (c : ℕ) → a ≤ c
    → c < b
    → P c
range_cons P a b first rest c h k = elim (dec_lt a c) [
  | yes l ↦ rest c (omega arith) k
  | no l ↦ subst P (sym (let e : c ≡ a = omega arith in e)) first
]

-- The same, where two ranges meet.
pub range_append :
    (P : ℕ → Type 0) (a b d : ℕ)
    → ((c : ℕ) → a ≤ c → c < b → P c)
    → ((c : ℕ) → b ≤ c → c < d → P c)
    → (c : ℕ) → a ≤ c
    → c < d
    → P c
range_append P a b d first rest c h k = elim (dec_lt c b) [
  | yes l ↦ first c h l
  | no l ↦ rest c (omega arith) k
]
