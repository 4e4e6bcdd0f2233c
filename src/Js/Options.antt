-- ===== src/Js/Options.antt =====
-- rsvim_core/src/js/binding/global_rsvim/opt.rs: the options that a script reads and sets, which are those
-- of the tree of widgets.
use rsvim.Prelude.{Bool, List, length, ◌==◌, Outcome, ok, ◌>>=◌, ◌>>◌, assert, get_elem?, unwrap}
use rsvim.Tree.Options
use rsvim.Tree.Options.{TreeOptions}

-- The values of the engine, with `to_boolean`.
pub record OptionValues : Type 1 where
  pub Value : Type 0
  pub to_boolean : Value → Bool

module _ (v : OptionValues) where
  unfoldable pub get_wrap : TreeOptions → Bool
  get_wrap t = Options.wrap t

  unfoldable pub set_wrap : List v.Value → TreeOptions → Outcome TreeOptions
  set_wrap args t = do
    assert (length args == 1)
    value ← unwrap (get_elem? args 0)
    ok (Options.set_wrap (v.to_boolean value) t)

  unfoldable pub get_line_break : TreeOptions → Bool
  get_line_break t = Options.line_break t

  unfoldable pub set_line_break : List v.Value → TreeOptions → Outcome TreeOptions
  set_line_break args t = do
    assert (length args == 1)
    value ← unwrap (get_elem? args 0)
    ok (Options.set_line_break (v.to_boolean value) t)
