-- ===== src/Canvas/Terminal.antt =====
-- What the canvas relies on of the terminal device, which the crate `crossterm` drives: a screen of
-- cells that shows one code point at each position, and the documented effect of the commands.
use rsvim.Prelude.{
  ℕ, ◌+◌, ◌≤◌, ◌<◌, ◌≡◌, ◌≢◌, ◌⊎◌, List, [], ◌∷◌, ◌++◌, length, get_elem?, some, refl,
}
use rsvim.Cart.{U16Pos, U16Size}
use rsvim.Canvas.Cell.{Symbol}
use rsvim.Canvas.Shader.{ShaderCommand, cursor_move_to, style_print_string}

-- The commands that change no cell of the screen, and those that do not move the cursor either.
abbrev pub IsQuiet : ShaderCommand → Type 0
IsQuiet (style_print_string text) = ⊥
IsQuiet _ = Unit

abbrev pub IsStill : ShaderCommand → Type 0
IsStill (style_print_string text) = ⊥
IsStill (cursor_move_to p) = ⊥
IsStill _ = Unit

pub record Terminal : Type 1 where
  pub Screen : Type 0
  pub size : U16Size
  pub exec : ShaderCommand → Screen → Screen
  pub glyph : Screen → U16Pos → ℕ
  pub cursor : Screen → U16Pos
  -- The code points that fill one column.
  pub IsNarrow : ℕ → Type 0
  pub glyph_quiet :
      (command : ShaderCommand) (sc : Screen) (q : U16Pos)
      → IsQuiet command
      → glyph (exec command sc) q ≡ glyph sc q
  pub cursor_still :
      (command : ShaderCommand) (sc : Screen)
      → IsStill command
      → cursor (exec command sc) ≡ cursor sc
  pub cursor_move :
      (p : U16Pos) (sc : Screen)
      → p.x < size.width
      → p.y < size.height
      → cursor (exec (cursor_move_to p) sc) ≡ p
  -- A text of narrow code points that does not leave the row goes to the columns from the cursor on,
  pub print_in :
      (text : Symbol) (sc : Screen) (i : ℕ) {g : ℕ}
      → ((j c : ℕ) → get_elem? text j ≡ some c → IsNarrow c)
      → (cursor sc).y < size.height
      → (cursor sc).x + length text ≤ size.width
      → get_elem? text i ≡ some g
      → glyph
          (exec (style_print_string text) sc)
          (record { x = (cursor sc).x + i; y = (cursor sc).y })
        ≡ g
  -- and nowhere else.
  pub print_out :
      (text : Symbol) (sc : Screen) (q : U16Pos)
      → ((j c : ℕ) → get_elem? text j ≡ some c → IsNarrow c)
      → (cursor sc).y < size.height
      → (cursor sc).x + length text ≤ size.width
      → (q.y ≢ (cursor sc).y) ⊎ (q.x < (cursor sc).x) ⊎ ((cursor sc).x + length text ≤ q.x)
      → glyph (exec (style_print_string text) sc) q ≡ glyph sc q

module _ (t : Terminal) where
  -- The commands of a shader, in their order.
  unfoldable pub exec_all : List ShaderCommand → t.Screen → t.Screen
  exec_all [] sc = sc
  exec_all (c ∷ cs) sc = exec_all cs (t.exec c sc)

  pub exec_all-append :
      (xs ys : List ShaderCommand) (sc : t.Screen)
      → exec_all (xs ++ ys) sc ≡ exec_all ys (exec_all xs sc)
  unfolding exec_all
  exec_all-append [] ys sc = refl
  exec_all-append (x ∷ xs) ys sc = exec_all-append xs ys (t.exec x sc)
