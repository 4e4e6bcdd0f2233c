-- ===== src/State/Fsm.antt =====
-- rsvim_core/src/state.rs, state/fsm.rs and the handlers of state/fsm: the state machine, and what
-- the event loop (evloop.rs) makes of an event. The locks on the tree and on the state are left out.
pub mod Moves
pub mod Reach
use package.rsvim.Prelude.{
  ℕ, Bool, true, false, ◌==◌, if◌then◌else◌, Option, none, some, Outcome, ok, ◌>>=◌,
}
use mathlib.Core.Option
use package.rsvim.Tree.Geo.{Geo}
use package.rsvim.Tree.Widgets.{
  Widgets, Tree, bounded_move_up_by, bounded_move_down_by, bounded_move_left_by,
  bounded_move_right_by,
}
use package.rsvim.State.Mode
use package.rsvim.State.Mode.{Mode}
use package.rsvim.State.Keys.{
  KeyTypes, KeyCode, KeyEvent, Event, Keys, press, repeat, release, up, down, left, right, esc,
  char, other, focus_gained, focus_lost, key, mouse, paste, resize,
}

-- Each state carries no data.
pub data StatefulValue : Type 0 where
  normal_mode : StatefulValue
  visual_mode : StatefulValue
  select_mode : StatefulValue
  operator_pending_mode : StatefulValue
  insert_mode : StatefulValue
  command_line_mode : StatefulValue
  terminal_mode : StatefulValue
  quit_state : StatefulValue

pub record State : Type 0 where
  pub stateful : StatefulValue
  pub last_stateful : StatefulValue
  pub mode : Mode

-- `StatefulValue::default` is the normal mode.
unfoldable pub new : State
new = record { stateful = normal_mode; last_stateful = normal_mode; mode = Mode.normal }

pub record StateHandleResponse : Type 0 where
  pub stateful : StatefulValue
  pub next_stateful : StatefulValue

unfoldable pub state_mode : StatefulValue → Option Mode
state_mode normal_mode = some Mode.normal
state_mode visual_mode = some Mode.visual
state_mode select_mode = some Mode.select
state_mode operator_pending_mode = some Mode.operator_pending
state_mode insert_mode = some Mode.insert_mode
state_mode command_line_mode = some Mode.command_line
state_mode terminal_mode = some Mode.terminal
state_mode quit_state = none

abbrev pub is_quit : StatefulValue → Bool
is_quit quit_state = true
is_quit _ = false

module _ {k : KeyTypes} (ks : Keys k) where
  -- `event == Event::Key(KeyCode::Esc.into())`
  unfoldable pub is_esc : Event k → Bool
  is_esc focus_gained = false
  is_esc focus_lost = false
  is_esc (key e) = ks.key_event_eq e (ks.of_code esc)
  is_esc (mouse m) = false
  is_esc (paste text) = false
  is_esc (resize columns rows) = false

module _ (k : KeyTypes) where
  -- What the stream of events yields: an event, an error, or its end.
  pub data Polled : Type 0 where
    event_ok : Event k → Polled
    event_err : Polled
    event_end : Polled

module _ (g : Geo) (w : Widgets) where
  -- The state, the tree and the cancellation token of the event loop.
  pub record EventLoop : Type 0 where
    pub state : State
    pub tree : Tree g w
    pub cancelled : Bool

module _ {g : Geo} {w : Widgets} {k : KeyTypes} where
  unfoldable pub visual_handle : Tree g w → Event k → Outcome (Tree g w × StatefulValue)
  visual_handle t event = ok (t, visual_mode)

  unfoldable pub select_handle : Tree g w → Event k → Outcome (Tree g w × StatefulValue)
  select_handle t event = ok (t, select_mode)

  unfoldable pub operator_pending_handle : Tree g w → Event k → Outcome (Tree g w × StatefulValue)
  operator_pending_handle t event = ok (t, operator_pending_mode)

  unfoldable pub insert_handle : Tree g w → Event k → Outcome (Tree g w × StatefulValue)
  insert_handle t event = ok (t, insert_mode)

  unfoldable pub command_line_handle : Tree g w → Event k → Outcome (Tree g w × StatefulValue)
  command_line_handle t event = ok (t, command_line_mode)

  unfoldable pub terminal_handle : Tree g w → Event k → Outcome (Tree g w × StatefulValue)
  terminal_handle t event = ok (t, terminal_mode)

  unfoldable pub quit_handle : Tree g w → Event k → Outcome (Tree g w × StatefulValue)
  quit_handle t event = ok (t, quit_state)

  -- What a pressed key does to the tree in the normal mode.
  unfoldable pub press_key : KeyCode k → Tree g w → Outcome (Tree g w)
  press_key code t = elim t.cursor_id [
    | none ↦ ok t
    | some cursor_id ↦ elim code [
      | up ↦ (do r ← bounded_move_up_by t cursor_id 1; ok r.0)
      | down ↦ (do r ← bounded_move_down_by t cursor_id 1; ok r.0)
      | left ↦ (do r ← bounded_move_left_by t cursor_id 1; ok r.0)
      | right ↦ (do r ← bounded_move_right_by t cursor_id 1; ok r.0)
      | esc ↦ ok t
      | char c ↦
          if c == b'k'
          then (do r ← bounded_move_up_by t cursor_id 1; ok r.0)
          else if c == b'j'
          then (do r ← bounded_move_down_by t cursor_id 1; ok r.0)
          else if c == b'h'
          then (do r ← bounded_move_left_by t cursor_id 1; ok r.0)
          else if c == b'l'
          then (do r ← bounded_move_right_by t cursor_id 1; ok r.0)
          else ok t
      | other o ↦ ok t
    ]
  ]

  -- The first `match` of the normal mode's handler.
  unfoldable pub normal_event : Tree g w → Event k → Outcome (Tree g w)
  normal_event t focus_gained = ok t
  normal_event t focus_lost = ok t
  normal_event t (key e) = elim e.kind [
    | press ↦ press_key e.code t
    | repeat ↦ ok t
    | release ↦ ok t
  ]
  normal_event t (mouse m) = ok t
  normal_event t (paste text) = ok t
  normal_event t (resize columns rows) = ok t

module _ {g : Geo} {w : Widgets} {k : KeyTypes} (ks : Keys k) where
  unfoldable pub normal_handle : Tree g w → Event k → Outcome (Tree g w × StatefulValue)
  normal_handle t event = do
    t' ← normal_event t event
    ok (t', if is_esc ks event then quit_state else normal_mode)

  -- `StatefulValue::handle`
  unfoldable pub stateful_handle :
      StatefulValue → Tree g w → Event k → Outcome (Tree g w × StatefulValue)
  stateful_handle normal_mode t event = normal_handle t event
  stateful_handle visual_mode t event = visual_handle t event
  stateful_handle select_mode t event = select_handle t event
  stateful_handle operator_pending_mode t event = operator_pending_handle t event
  stateful_handle insert_mode t event = insert_handle t event
  stateful_handle command_line_mode t event = command_line_handle t event
  stateful_handle terminal_mode t event = terminal_handle t event
  stateful_handle quit_state t event = quit_handle t event

  unfoldable pub handle :
      State → Tree g w → Event k → Outcome (State × Tree g w × StateHandleResponse)
  handle s t event = do
    let mode = Option.get_or (state_mode s.stateful) s.mode
    let stateful = s.stateful
    r ← stateful_handle stateful t event
    let next_stateful = r.1
    ok (
      record { stateful = next_stateful; last_stateful = stateful; mode = mode },
      r.0,
      record { stateful = stateful; next_stateful = next_stateful },
    )

  unfoldable pub process_event : EventLoop g w → Polled k → Outcome (EventLoop g w)
  process_event l (event_ok event) = do
    r ← handle l.state l.tree event
    let (state, tree, response) = r
    ok (record {
      state = state;
      tree = tree;
      cancelled = if is_quit response.next_stateful then true else l.cancelled;
    })
  process_event l event_err = ok (record l { cancelled = true })
  process_event l event_end = ok (record l { cancelled = true })
