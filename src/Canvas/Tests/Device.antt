-- ===== src/Canvas/Tests/Device.antt =====
-- Colours as numbers, and a terminal as the function from positions to what they show: the
-- assumptions on the crate `crossterm` can be met.
use rsvim.Prelude.{
  ℕ, ◌+◌, ◌-◌, ◌≤◌, ◌<◌, ◌≡◌, ◌≢◌, refl, ◌⊎◌, ◌==◌, ==_iff, leb, ltb, ◌&&◌, if◌then◌else◌, length,
  get_elem?, some, arith, get_elem?-some-lt,
}
use mathlib.Core.Option
use rsvim.Cart.{U16Pos}
use rsvim.Canvas.Cell.{Crossterm, Symbol, space_code}
use rsvim.Canvas.Shader.{
  ShaderCommand, cursor_set_cursor_style, cursor_disable_blinking, cursor_enable_blinking,
  cursor_hide, cursor_show, cursor_move_to, style_print_string,
}
use rsvim.Canvas.Terminal.{Terminal, IsQuiet, IsStill}

abbrev pub colours : Crossterm
colours = record {
  Color = ℕ;
  Attributes = ℕ;
  reset = 0;
  default_attributes = 0;
  color_eq = ◌==◌;
  color_eq_iff = ==_iff;
  attributes_eq = ◌==◌;
  attributes_eq_iff = ==_iff;
}

pub record Screen : Type 0 where
  pub shown : U16Pos → ℕ
  pub cursor : U16Pos

abbrev pub print : Symbol → Screen → U16Pos → ℕ
print text sc q =
    if q.y == sc.cursor.y && (leb sc.cursor.x q.x && ltb q.x (sc.cursor.x + length text))
    then Option.get_or (get_elem? text (q.x - sc.cursor.x)) space_code
    else sc.shown q

abbrev pub exec : ShaderCommand → Screen → Screen
exec (cursor_move_to p) sc = record sc { cursor = p }
exec (style_print_string text) sc = record sc { shown = print text sc }
exec (cursor_set_cursor_style style) sc = sc
exec cursor_disable_blinking sc = sc
exec cursor_enable_blinking sc = sc
exec cursor_hide sc = sc
exec cursor_show sc = sc

pub exec-quiet :
    (c : ShaderCommand) (sc : Screen) (q : U16Pos) → IsQuiet c → (exec c sc).shown q ≡ sc.shown q
exec-quiet (style_print_string text) sc q h = absurd h
exec-quiet (cursor_move_to p) sc q h = refl
exec-quiet (cursor_set_cursor_style style) sc q h = refl
exec-quiet cursor_disable_blinking sc q h = refl
exec-quiet cursor_enable_blinking sc q h = refl
exec-quiet cursor_hide sc q h = refl
exec-quiet cursor_show sc q h = refl

pub exec-still : (c : ShaderCommand) (sc : Screen) → IsStill c → (exec c sc).cursor ≡ sc.cursor
exec-still (style_print_string text) sc h = absurd h
exec-still (cursor_move_to p) sc h = absurd h
exec-still (cursor_set_cursor_style style) sc h = refl
exec-still cursor_disable_blinking sc h = refl
exec-still cursor_enable_blinking sc h = refl
exec-still cursor_hide sc h = refl
exec-still cursor_show sc h = refl

pub print-in :
    (text : Symbol) (sc : Screen) (i : ℕ) {g : ℕ}
    → get_elem? text i ≡ some g
    → print text sc (record { x = sc.cursor.x + i; y = sc.cursor.y }) ≡ g
print-in text sc i e = ground (arith, e, get_elem?-some-lt text i e)

pub print-out :
    (text : Symbol) (sc : Screen) (q : U16Pos)
    → (q.y ≢ sc.cursor.y) ⊎ (q.x < sc.cursor.x) ⊎ (sc.cursor.x + length text ≤ q.x)
    → print text sc q ≡ sc.shown q
print-out text sc q away = ground (arith, away)

abbrev pub device : Terminal
device = record {
  Screen = Screen;
  size = record { width = 6; height = 4 };
  exec = exec;
  glyph = λ sc. sc.shown;
  cursor = λ sc. sc.cursor;
  IsNarrow = λ c. c < 128;
  glyph_quiet = exec-quiet;
  cursor_still = exec-still;
  cursor_move = λ p sc hx hy. refl;
  print_in = λ text sc i {g} narrow row col e. print-in text sc i e;
  print_out = λ text sc q narrow row col away. print-out text sc q away;
}

abbrev pub blank : Screen
blank = record { shown = λ q. space_code; cursor = record { x = 0; y = 0 } }
