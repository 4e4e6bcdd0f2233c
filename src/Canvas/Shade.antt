-- ===== src/Canvas/Shade.antt =====
-- `Canvas::shade` of rsvim_core/src/ui/canvas.rs: the commands for the cells, then those for the
-- cursor; then the current frame becomes the previous one.
pub mod Text
pub mod Screen
pub mod Refine
use package.rsvim.Prelude.{
  ℕ, Bool, true, false, not, ◌&&◌, ◌==◌, if◌then◌else◌, List, [], ◌∷◌, ◌++◌, Outcome, ok, ◌>>=◌,
}
use package.rsvim.Cart.{U16Pos, U16Size}
use package.rsvim.Canvas.Cell.{Crossterm}
use package.rsvim.Canvas.Cursor.{Cursor, cursor_eq, cursor_style_eq, bool_eq, pos_eq}
use package.rsvim.Canvas.Frame
use package.rsvim.Canvas.Shader
use package.rsvim.Canvas.Shader.{
  Shader, ShaderCommand, cursor_set_cursor_style, cursor_disable_blinking, cursor_enable_blinking,
  cursor_hide, cursor_show, cursor_move_to,
}
use package.rsvim.Canvas.Diff.{Canvas, size, prev_size, dirty_marks_diff, brute_force_diff}

abbrev pub size_eq : U16Size → U16Size → Bool
size_eq a b = a.width == b.width && a.height == b.height

-- `if b { vec.push(command) }`
abbrev pub push_if : Bool → ShaderCommand → List ShaderCommand → List ShaderCommand
push_if b command shader = if b then shader ++ command ∷ [] else shader

module _ {s : Crossterm} where
  unfoldable pub shade_done : Canvas s → Canvas s
  shade_done can = record { prev_frame = can.frame; frame = Frame.reset_dirty_rows can.frame }

  unfoldable pub shade_cursor : Canvas s → List ShaderCommand
  shade_cursor can =
      let cursor = can.frame.cursor in
      let prev_cursor = can.prev_frame.cursor in
      let blinks = if cursor.blinking then cursor_enable_blinking else cursor_disable_blinking in
      let hides = if cursor.hidden then cursor_hide else cursor_show in
      let blinking = push_if (not (bool_eq cursor.blinking prev_cursor.blinking)) blinks [] in
      let hidden = push_if (not (bool_eq cursor.hidden prev_cursor.hidden)) hides blinking in
      let style =
        push_if (not (cursor_style_eq cursor.style prev_cursor.style))
          (cursor_set_cursor_style cursor.style) hidden in
      let moved =
        push_if (not (pos_eq cursor.pos prev_cursor.pos)) (cursor_move_to cursor.pos) style in
      if cursor_eq cursor prev_cursor then [] else moved

  unfoldable pub shade_cells : Canvas s → Outcome (List ShaderCommand)
  shade_cells can =
      if size_eq (size can) (prev_size can) then dirty_marks_diff can else brute_force_diff can

  unfoldable pub shade : Canvas s → Outcome (Canvas s × Shader)
  unfolding Shader.new Shader.push Shader.append
  shade can = do
    cells_shaders ← shade_cells can
    let saved_cursor_pos = can.frame.cursor.pos
    let cells = Shader.append cells_shaders Shader.new
    let moved = Shader.push (cursor_move_to saved_cursor_pos) cells
    let shader = Shader.append (shade_cursor can) moved
    ok (shade_done can, shader)
