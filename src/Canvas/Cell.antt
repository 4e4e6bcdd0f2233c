-- ===== src/Canvas/Cell.antt =====
-- rsvim_core/src/ui/canvas/frame/cell.rs: one cell of a frame. Colours and attributes are types of
-- the crate `crossterm`; what the cell relies on is a record of the model.
use rsvim.Prelude.{ℕ, ◌≡◌, ◌↔◌, Bool, true, false, ◌&&◌, List, [], ◌∷◌, ◌==◌, arith}

-- `crossterm::style::{Color, Attributes}`, with the two values and the equality that the cell uses.
pub record Crossterm : Type 1 where
  pub Color : Type 0
  pub Attributes : Type 0
  -- `Color::Reset` and `Attributes::default()`
  pub reset : Color
  pub default_attributes : Attributes
  pub color_eq : Color → Color → Bool
  pub color_eq_iff : (a b : Color) → (color_eq a b ≡ true) ↔ (a ≡ b)
  pub attributes_eq : Attributes → Attributes → Bool
  pub attributes_eq_iff : (a b : Attributes) → (attributes_eq a b ≡ true) ↔ (a ≡ b)

-- `CompactString`, by its code points.
abbrev pub Symbol : Type 0
Symbol = List ℕ

abbrev pub space_code : ℕ
space_code = b' '

pub record Cell (s : Crossterm) : Type 0 where
  pub symbol : Symbol
  pub fg : s.Color
  pub bg : s.Color
  pub attrs : s.Attributes

unfoldable pub symbol_eq : Symbol → Symbol → Bool
symbol_eq [] [] = true
symbol_eq [] (b ∷ bs) = false
symbol_eq (a ∷ as') [] = false
symbol_eq (a ∷ as') (b ∷ bs) = a == b && symbol_eq as' bs

pub symbol_eq_iff : (a b : Symbol) → (symbol_eq a b ≡ true) ↔ (a ≡ b)
unfolding symbol_eq
symbol_eq_iff [] [] = ground arith
symbol_eq_iff [] (b ∷ bs) = ground arith
symbol_eq_iff (a ∷ as') [] = ground arith
symbol_eq_iff (a ∷ as') (b ∷ bs) = ground (arith, symbol_eq_iff as' bs)

module _ {s : Crossterm} where
  unfoldable pub new : Symbol → s.Color → s.Color → s.Attributes → Cell s
  new symbol fg bg attrs = record { symbol = symbol; fg = fg; bg = bg; attrs = attrs }

  unfoldable pub with_symbol : Symbol → Cell s
  with_symbol symbol = record {
    symbol = symbol;
    fg = s.reset;
    bg = s.reset;
    attrs = s.default_attributes;
  }

  unfoldable pub with_char : ℕ → Cell s
  with_char c = record { symbol = c ∷ []; fg = s.reset; bg = s.reset; attrs = s.default_attributes }

  unfoldable pub space : Cell s
  space = record {
    symbol = space_code ∷ [];
    fg = s.reset;
    bg = s.reset;
    attrs = s.default_attributes;
  }

  unfoldable pub empty : Cell s
  empty = record { symbol = []; fg = s.reset; bg = s.reset; attrs = s.default_attributes }

  -- `impl Default`
  unfoldable pub default : Cell s
  unfolding empty
  default = empty

  -- `impl From<char>`
  unfoldable pub from_char : ℕ → Cell s
  unfolding new
  from_char c = new (c ∷ []) s.reset s.reset s.default_attributes

  unfoldable pub set_symbol : Symbol → Cell s → Cell s
  set_symbol symbol c = record c { symbol = symbol }

  unfoldable pub set_char : ℕ → Cell s → Cell s
  set_char ch c = record c { symbol = ch ∷ [] }

  unfoldable pub set_fg : s.Color → Cell s → Cell s
  set_fg color c = record c { fg = color }

  unfoldable pub set_bg : s.Color → Cell s → Cell s
  set_bg color c = record c { bg = color }

  unfoldable pub set_attrs : s.Attributes → Cell s → Cell s
  set_attrs attrs c = record c { attrs = attrs }

  -- The derived `PartialEq`, field by field.
  unfoldable pub cell_eq : Cell s → Cell s → Bool
  cell_eq a b =
      symbol_eq a.symbol b.symbol
      && s.color_eq a.fg b.fg
      && s.color_eq a.bg b.bg
      && s.attributes_eq a.attrs b.attrs

  -- The comparison of two cells holds exactly when they are equal.
  pub cell_eq_iff : (a b : Cell s) → (cell_eq a b ≡ true) ↔ (a ≡ b)
  unfolding cell_eq
  cell_eq_iff a b = ground (
    arith,
    symbol_eq_iff a.symbol b.symbol,
    s.color_eq_iff a.fg b.fg,
    s.color_eq_iff a.bg b.bg,
    s.attributes_eq_iff a.attrs b.attrs,
  )
