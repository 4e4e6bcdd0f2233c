-- ===== src/Lib.antt =====
-- The core of rsvim, a text editor for the terminal: the canvas that the widgets draw on, the tree
-- of the widgets, the buffers and the viewports of the windows on them, the state machine of the
-- editing modes, the modules and timers of the JavaScript runtime, and the event loop. Paths are
-- those below rsvim_core/src.
--
-- Parts. The canvas (ui/canvas.rs) holds the current frame and the previous one. A frame
-- (ui/canvas/frame.rs) is a vector of cells (ui/canvas/internal/iframe.rs,
-- ui/canvas/frame/cell.rs) with a dirty mark for each row, and a cursor
-- (ui/canvas/frame/cursor.rs). Widgets write cells into the current frame; then `Canvas::shade`
-- compares the frames and returns the commands for the terminal, and the current frame becomes the
-- previous one. The widgets are the nodes of a tree (ui/tree.rs, ui/tree/internal): each has a
-- shape relative to its parent and an actual shape, which is clipped to the parent's. A buffer
-- (buf.rs) is a text with the widths of its characters, and a viewport
-- (ui/widget/window/viewport.rs, ui/widget/window/viewport/sync.rs) says which characters of the
-- buffer's lines stand in which rows and columns of a window. The event loop (evloop.rs) hands
-- each event to the state machine (state.rs, state/fsm.rs, state/fsm), whose handlers move the
-- cursor in the tree and choose the next state. The runtime (js.rs, js) runs scripts in an engine:
-- it loads modules with what they import, and its timers are requests to the event loop, which
-- sends a response for each.
--
-- Files. Prelude: shared notation, lists, maps and integers over native numbers, and results that
-- may be a panic. Cart: points and sizes (cart.rs). Canvas/Cell, Canvas/Cursor, Canvas/Iframe,
-- Canvas/Frame, Canvas/Shader: the types and methods of the source files of those names, under the
-- names of the source; Canvas/Diff: both diff algorithms; Canvas/Shade: the shade.
-- Canvas/Terminal: what is assumed of a terminal. Canvas/Session: a canvas over its whole life.
-- Tree/Shapes: the functions of ui/tree/internal/shapes.rs; Tree/Itree: the nodes and the tree of
-- ui/tree/internal; Tree/Widgets: the tree of ui/tree.rs with its windows and its cursor.
-- Buf/Rope: what is assumed of texts; Buf/Ascii: the names of the control codes
-- (defaults/grapheme.rs); Buf/Buffer: the buffer; Buf/Manager: the manager of the buffers, which
-- opens files. Viewport/Rows: rows, lines and options of a viewport; Viewport/Scan: the loops over
-- the characters of a line, without and with wrapping, and Viewport/Words: those over its words;
-- Viewport/Sync: the loop over the lines and `from_top_left`; Viewport/View: the viewport and the
-- check of its invariants. Window/Content: the drawing of the text of a window
-- (ui/widget/window/content.rs); Window/Widget: the window and the drawing of the cursor
-- (ui/widget/window.rs, ui/widget/cursor.rs). Tree/Iter: the iterator over a tree. State/Mode:
-- state/mode.rs; State/Keys: the events of the crate crossterm; State/Fsm: the state, its
-- handlers, and `process_event` of evloop.rs. Js/Names: texts and maps over them; Js/Loader:
-- js/loader.rs and the choice of a loader in js/module.rs; Js/Module: the map of the modules and
-- `fetch_module_tree` of js/module.rs, and `module_resolve_cb` of js/hook.rs; Js/Graph: the
-- pending imports of js/module.rs and the loop over them in js.rs; Js/Execute: `execute_module` of
-- js.rs; Js/Options and Tree/Options: the options that scripts set
-- (js/binding/global_rsvim/opt.rs, ui/tree.rs); Js/Exceptions: js/exception.rs; Js/Timers: the
-- timers of js.rs, js/binding/global_this/timeout.rs and the messages of evloop.rs. Evloop/Start:
-- `init_buffers` and `init_windows` of evloop.rs; Evloop/Rounds: the handlers of its branches,
-- `render` and `run`, and the drawing of the tree (ui/tree.rs). The child modules hold the proofs,
-- and the Tests modules concrete runs.
--
-- Conventions. A method on `&mut self` is a function that returns the new value with its result.
-- Code that may panic returns an `Outcome`. A `u16` is a number, `as u16` is the remainder by
-- 65536, and an addition on `u16` that may overflow panics, as a debug build does. `usize` and
-- `isize` are unbounded: the `usize` values of the frames are products of two `u16`, and a shape
-- of the tree is assumed to stay away from the ends of `isize`. A node id is a number that the
-- caller hands out. A `HashMap` is an association list, a `HashSet` or `BTreeSet` a list without
-- repetitions; no order of theirs is observed. The number of a timer is the count of the calls of
-- `next_future_id` by 2 ^ 32, the bits of its `i32`. A channel is the list of the messages in it.
--
-- Loops. A `while` loop takes fuel; `stuck` is a loop out of fuel. The loops of the diffs get one
-- round for each column and one more, and the theorems on the diffs show that this is enough. The
-- queue of `update_descendant_attributes` gets one round for each node of the tree, and the search
-- for the current window one round for each node with a parent and one more. That this is enough
-- is shown for a moved node without children, as the cursor is, and for a cursor right below a
-- window; other trees are not covered. The recursion of `fetch_module_tree` takes one round for
-- each path that can be imported.
--
-- Assumptions. The colours and attributes of crossterm are parameters with an equality
-- (`Crossterm`). The terminal is a parameter (`Terminal`) with the effect of the commands that the
-- canvas makes: a narrow text that fits its row is shown at the cursor and nowhere else, and the
-- cursor moves where it is told to. Texts of wide characters are outside of these laws. The
-- rectangles of the crate geo are a parameter (`Geo`): a rectangle keeps the smallest and the
-- greatest coordinates of the corners that it is made from. Texts are those of the crates ropey,
-- unicode-width and unicode-segmentation (`Texts`): a text has a line, each line but the last has
-- a character, and the words of a text put together are the text. The file system is a parameter
-- of the calls that read it (`FileSystem`). The engine compiles a source under its name to a
-- module, no module under two names, and lists the module's imports (`Engine`); to link a module
-- it asks for the imports of the modules that it was given and for no others (`Linker`); a run of
-- a script is a tree of its calls of the host (`Scripts`), whose arguments have the types that the
-- wrapper js/runtime/00__web.js checks, and the evaluation of a module is such a run or does not
-- end. The calls that read and set options are not among those of a run. Files, the rules of paths
-- and the compilers for TypeScript and JSX are parameters of the loader (`Host`). Key events are
-- crossterm's, and so is their equality (`Keys`).
--
-- Not modelled: the formatters for debugging; the set-up of the engine, its snapshots, and the
-- bindings and error messages that only build values of the engine; the transpiler, which calls a
-- compiler; the environment and the command line; the set-up of the terminal and the tasks of the
-- workers, which are input and output; and the locks, since one thread at a time works on the
-- values they guard.
pub mod Prelude
pub mod Cart
pub mod Canvas
pub mod Tree
pub mod Buf
pub mod Viewport
pub mod Window
pub mod State
pub mod Js
pub mod Evloop
