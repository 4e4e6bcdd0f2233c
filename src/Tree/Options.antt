-- ===== src/Tree/Options.antt =====
-- rsvim_core/src/ui/tree.rs: the options of the tree of widgets, of which a new window gets a copy.
use rsvim.Prelude.{Bool}
use rsvim.Window.Widget.{WindowLocalOptions}

-- The options of the tree, beside its nodes.
pub record TreeOptions : Type 0 where
  pub local_options : WindowLocalOptions

unfoldable pub set_local_options : WindowLocalOptions → TreeOptions → TreeOptions
set_local_options options t = record t { local_options = options }

unfoldable pub wrap : TreeOptions → Bool
wrap t = t.local_options.wrap

unfoldable pub set_wrap : Bool → TreeOptions → TreeOptions
set_wrap value t = record t { local_options = record t.local_options { wrap = value } }

unfoldable pub line_break : TreeOptions → Bool
line_break t = t.local_options.line_break

unfoldable pub set_line_break : Bool → TreeOptions → TreeOptions
set_line_break value t = record t { local_options = record t.local_options { line_break = value } }
