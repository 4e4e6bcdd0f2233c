-- ===== src/State/Tests.antt =====
-- Keys pressed in a window of ten columns and five rows, and sets of modes.
use Prim.Native.String.{String}
use rsvim.Prelude.{
  ℕ, ◌≡◌, refl, inl, inr, Bool, true, ◌==◌, if◌then◌else◌, List, [], ◌∷◌, arith, pos,
}
use rsvim.Tree.Tests.{window_node, cursor_node, with_cursor, cursor_leaf}
use rsvim.State.Mode.{Modes, select, visual, insert_mode, mode_eq, mem, to_string, from_str}
use rsvim.State.Mode.Names.{from_str-to_string}
use rsvim.State.Mode.Sets.{Unique}
use rsvim.State.Keys.{
  KeyTypes, KeyCode, KeyEvent, Keys, press, up, down, left, right, esc, char, other, key,
}
use rsvim.State.Fsm.{new, press_key, handle}
use rsvim.State.Fsm.Moves.{CursorLeaf, CursorMoves, press_key-CursorMoves}
use rsvim.State.Fsm.Reach.{Handles, here, next, Started, handle-Handles, Reach-Started}

abbrev pub types : KeyTypes
types = record { OtherKey = ℕ; Modifiers = ℕ; KeyState = ℕ; MouseEvent = Unit; Text = List ℕ }

abbrev of_code : KeyCode types → KeyEvent types
of_code c = record { code = c; modifiers = 0; kind = press; state = 0 }

abbrev code_index : KeyCode types → ℕ
code_index up = 0
code_index down = 1
code_index left = 2
code_index right = 3
code_index esc = 4
code_index (char c) = 5
code_index (other o) = 6

abbrev event_eq : KeyEvent types → KeyEvent types → Bool
event_eq a b = code_index a.code == code_index b.code

pub event_eq_refl : (a : KeyEvent types) → event_eq a a ≡ true
event_eq_refl a = ground arith

pub event_eq_esc : (a : KeyEvent types) → event_eq a (of_code esc) ≡ true → a.code ≡ esc
event_eq_esc a h = ground arith

abbrev pub keys : Keys types
keys = record {
  of_code = of_code;
  of_code-code = λ c. refl;
  of_code-kind = λ c. refl;
  key_event_eq = event_eq;
  key_event_eq-refl = event_eq_refl;
  key_event_eq-esc = event_eq_esc;
}

leaf : CursorLeaf with_cursor
leaf = record {
  id = 3;
  parent_id = 2;
  n = cursor_node;
  parent = window_node;
  at = refl;
  leaf = cursor_leaf;
}

abbrev three_modes : Modes
three_modes = record { values = select ∷ visual ∷ insert_mode ∷ [] }

three_modes-Unique : Unique three_modes.values
unfolding mem mode_eq
three_modes-Unique = (refl, (refl, (refl, tt)))

from_str-to_string_example :
    from_str (to_string select) ≡ inl (if mode_eq select select then visual else select)
from_str-to_string_example = from_str-to_string select

abbrev name : String
name = "Insert"

press_key-CursorMoves_example :
    CursorMoves with_cursor leaf (pos 0) (pos 1) (press_key {k = types} (char b'j') with_cursor)
press_key-CursorMoves_example =
    press_key-CursorMoves with_cursor leaf (char b'j') (pos 0) (pos 1) refl

handle-Handles_example :
    Handles keys new with_cursor
      (key (of_code esc))
      (handle keys new with_cursor (key (of_code esc)))
handle-Handles_example = handle-Handles keys new with_cursor (key (of_code esc)) (inr leaf)

-- The escape key, pressed in a new state.
escaped :
    Handles keys new with_cursor
      (key (of_code esc))
      (handle keys new with_cursor (key (of_code esc)))
escaped = handle-Handles keys new with_cursor (key (of_code esc)) (inr leaf)

Reach-Started_example : Started keys escaped.after escaped.tree
Reach-Started_example =
    Reach-Started keys with_cursor (inr leaf)
      (next (key (of_code esc)) escaped.after escaped.tree escaped.response here escaped.returns)
