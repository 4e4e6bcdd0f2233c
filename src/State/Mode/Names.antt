-- ===== src/State/Mode/Names.antt =====
-- The names of the modes.
use Prim.Native.String.{String}
use rsvim.Prelude.{◌≡◌, refl, ◌⊎◌, inl, arith, if◌then◌else◌}
use text.Mathlib.TextEquality.{eq_iff}
use rsvim.State.Mode.{
  Mode, normal, visual, select, operator_pending, insert_mode, command_line, terminal, mode_eq,
  to_string, from_str,
}

-- The name of a mode reads as this mode, but the name of the select mode reads as the visual mode.
pub from_str-to_string :
    (m : Mode) → from_str (to_string m) ≡ inl (if mode_eq m select then visual else m)
unfolding to_string from_str mode_eq
from_str-to_string normal = refl
from_str-to_string visual = refl
from_str-to_string select = refl
from_str-to_string operator_pending = refl
from_str-to_string insert_mode = refl
from_str-to_string command_line = refl
from_str-to_string terminal = refl

-- A text that reads as a mode is the name of this mode, or that of the select mode.
pub from_str_inv : (s : String) (m : Mode) → from_str s ≡ inl m → (to_string m ≡ s) ⊎ (s ≡ "Select")
unfolding to_string from_str
from_str_inv s m e = ground (
  arith,
  eq_iff s "Normal",
  eq_iff s "Visual",
  eq_iff s "Select",
  eq_iff s "Operator-pending",
  eq_iff s "Insert",
  eq_iff s "Command-line",
  eq_iff s "Terminal",
)
