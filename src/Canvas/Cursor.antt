-- ===== src/Canvas/Cursor.antt =====
-- rsvim_core/src/ui/canvas/frame/cursor.rs: the cursor of a frame.
use rsvim.Prelude.{Bool, true, false, ◌&&◌, ◌≡◌, ◌↔◌, ◌==◌, arith}
use rsvim.Cart.{U16Pos}

-- `crossterm::cursor::SetCursorStyle`, as `cursor_style_eq` lists its cases.
pub data CursorStyle : Type 0 where
  default_user_shape : CursorStyle
  blinking_block steady_block : CursorStyle
  blinking_under_score steady_under_score : CursorStyle
  blinking_bar steady_bar : CursorStyle

unfoldable pub cursor_style_eq : CursorStyle → CursorStyle → Bool
cursor_style_eq default_user_shape default_user_shape = true
cursor_style_eq blinking_block blinking_block = true
cursor_style_eq steady_block steady_block = true
cursor_style_eq blinking_under_score blinking_under_score = true
cursor_style_eq steady_under_score steady_under_score = true
cursor_style_eq blinking_bar blinking_bar = true
cursor_style_eq steady_bar steady_bar = true
cursor_style_eq a b = false

pub record Cursor : Type 0 where
  pub pos : U16Pos
  pub blinking : Bool
  pub hidden : Bool
  pub style : CursorStyle

unfoldable pub new : U16Pos → Bool → Bool → CursorStyle → Cursor
new pos blinking hidden style = record {
  pos = pos;
  blinking = blinking;
  hidden = hidden;
  style = style;
}

-- `impl Default`
unfoldable pub default : Cursor
default = record {
  pos = record { x = 0; y = 0 };
  blinking = true;
  hidden = false;
  style = default_user_shape;
}

unfoldable pub set_pos : U16Pos → Cursor → Cursor
set_pos pos c = record c { pos = pos }

unfoldable pub set_blinking : Bool → Cursor → Cursor
set_blinking blinking c = record c { blinking = blinking }

unfoldable pub set_hidden : Bool → Cursor → Cursor
set_hidden hidden c = record c { hidden = hidden }

unfoldable pub set_style : CursorStyle → Cursor → Cursor
set_style style c = record c { style = style }

-- `==` on `bool` and on `Point<u16>`.
abbrev pub bool_eq : Bool → Bool → Bool
bool_eq true b = b
bool_eq false true = false
bool_eq false false = true

abbrev pub pos_eq : U16Pos → U16Pos → Bool
pos_eq p q = p.x == q.x && p.y == q.y

-- `impl PartialEq`
unfoldable pub cursor_eq : Cursor → Cursor → Bool
unfolding cursor_style_eq
cursor_eq a b =
    pos_eq a.pos b.pos
    && bool_eq a.blinking b.blinking
    && bool_eq a.hidden b.hidden
    && cursor_style_eq a.style b.style

pub cursor_style_eq_iff : (a b : CursorStyle) → (cursor_style_eq a b ≡ true) ↔ (a ≡ b)
unfolding cursor_style_eq
cursor_style_eq_iff a b = ground arith

-- The comparison of two cursors holds exactly when they are equal.
pub cursor_eq_iff : (a b : Cursor) → (cursor_eq a b ≡ true) ↔ (a ≡ b)
unfolding cursor_eq
cursor_eq_iff a b = ground (arith, cursor_style_eq_iff a.style b.style)
