-- ===== src/Cart.antt =====
-- rsvim_core/src/cart.rs: positions and sizes of the terminal's coordinate system. The columns run
-- from left to right, the rows from top to bottom.
use rsvim.Prelude.{ℕ, ◌+◌, ◌-◌, ◌%◌, ltb, if◌then◌else◌, Outcome, ok, panic, ℤ, pos, negsuc}

-- A point of the plane, `geo::Point`, by its two coordinates.
pub record Point (T : Type 0) : Type 0 where
  pub x : T
  pub y : T

-- A value of type `u16` is a number below `u16_mod`.
abbrev pub U16Pos : Type 0
U16Pos = Point ℕ

pub record Size (T : Type 0) : Type 0 where
  pub width : T
  pub height : T

abbrev pub U16Size : Type 0
U16Size = Size ℕ

abbrev pub u16_mod : ℕ
u16_mod = 65536

-- `n as u16`
abbrev pub as_u16 : ℕ → ℕ
as_u16 n = n % u16_mod

-- `a + b` on `u16`, with the overflow check of a debug build.
unfoldable pub add_u16 : ℕ → ℕ → Outcome ℕ
add_u16 a b = if ltb (a + b) u16_mod then ok (a + b) else panic

abbrev pub IPos : Type 0
IPos = Point ℤ

abbrev pub ISize : Type 0
ISize = Size ℤ

-- `n as u16` of an `isize`, the remainder by 65536 in two's complement.
abbrev pub isize_as_u16 : ℤ → ℕ
isize_as_u16 (pos n) = n % u16_mod
isize_as_u16 (negsuc n) = u16_mod - 1 - n % u16_mod
