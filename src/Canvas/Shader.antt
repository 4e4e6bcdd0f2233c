-- ===== src/Canvas/Shader.antt =====
-- The commands of rsvim_core/src/ui/canvas.rs that the canvas sends to the terminal, and their list.
use rsvim.Prelude.{List, [], ◌∷◌, ◌++◌}
use rsvim.Cart.{U16Pos}
use rsvim.Canvas.Cell.{Symbol}
use rsvim.Canvas.Cursor.{CursorStyle}

-- `enum ShaderCommand`: the seven commands that the canvas builds. The other constructors wrap the
-- rest of the terminal crate's commands, and no code of the canvas builds one.
pub data ShaderCommand : Type 0 where
  cursor_set_cursor_style : CursorStyle → ShaderCommand
  cursor_disable_blinking cursor_enable_blinking : ShaderCommand
  cursor_hide cursor_show : ShaderCommand
  cursor_move_to : U16Pos → ShaderCommand
  style_print_string : Symbol → ShaderCommand

pub record Shader : Type 0 where
  pub commands : List ShaderCommand

unfoldable pub new : Shader
new = record { commands = [] }

unfoldable pub push : ShaderCommand → Shader → Shader
push command sh = record { commands = sh.commands ++ command ∷ [] }

unfoldable pub append : List ShaderCommand → Shader → Shader
append commands sh = record { commands = sh.commands ++ commands }
