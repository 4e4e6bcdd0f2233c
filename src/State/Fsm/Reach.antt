-- ===== src/State/Fsm/Reach.antt =====
-- The state machine over any sequence of events.
use rsvim.Prelude.{
  ◌≡◌, refl, ◌⊎◌, inl, inr, Bool, true, ◌||◌, if◌then◌else◌, Option, none, some, Outcome, ok, arith,
  ℤ,
}
use mathlib.Core.Option
use mathlib.Core.Path.{subst}
use rsvim.Tree.Geo.{Geo}
use rsvim.Tree.Widgets.{Widgets, Tree}
use rsvim.State.Mode.{Mode}
use rsvim.State.Keys.{
  KeyTypes, KeyCode, KeyEventKind, Event, Keys, press, repeat, release, key, focus_gained,
  focus_lost, mouse, paste, resize,
}
use rsvim.State.Fsm.{
  StatefulValue, StateHandleResponse, visual_mode, select_mode, operator_pending_mode, insert_mode,
  command_line_mode, terminal_mode, visual_handle, select_handle, operator_pending_handle,
  insert_handle, command_line_handle, terminal_handle, normal_mode, quit_state, State, new,
  state_mode, handle, stateful_handle, normal_handle, normal_event, press_key, is_esc, is_quit,
  quit_handle, EventLoop, Polled, event_ok, event_err, event_end, process_event,
}
use rsvim.State.Fsm.Moves.{
  CursorLeaf, delta, press_key-CursorMoves, press_key-still, CursorMoves-CursorLeaf,
}

option_cases : (o : Option (ℤ × ℤ)) → (o ≡ none) ⊎ ((x : ℤ) × (y : ℤ) × (o ≡ some (x, y)))
option_cases none = inl refl
option_cases (some (x, y)) = inr (x, y, refl)

delta_cases :
    {k : KeyTypes} (code : KeyCode k)
    → (delta code ≡ none) ⊎ ((x : ℤ) × (y : ℤ) × (delta code ≡ some (x, y)))
delta_cases {k} code = option_cases (delta code)

kind_cases : (kd : KeyEventKind) → (kd ≡ press) ⊎ ((kd ≡ repeat) ⊎ (kd ≡ release))
kind_cases press = inl refl
kind_cases repeat = inr (inl refl)
kind_cases release = inr (inr refl)

module _ {k : KeyTypes} (ks : Keys k) where
  -- The state after an event: the escape key leaves the normal mode, and nothing else leaves a state.
  abbrev pub next_of : StatefulValue → Event k → StatefulValue
  next_of normal_mode event = if is_esc ks event then quit_state else normal_mode
  next_of s event = s

  -- What stops the event loop: an event that leads to the quit state, an error, the end.
  abbrev pub stops : StatefulValue → Polled k → Bool
  stops v (event_ok event) = is_quit (next_of v event)
  stops v event_err = true
  stops v event_end = true

module _ {g : Geo} {w : Widgets} where
  -- The tree has no cursor, or one with a parent and without children.
  abbrev pub HasCursor : Tree g w → Type 0
  HasCursor t = (t.cursor_id ≡ none) ⊎ CursorLeaf t

module _ {g : Geo} {w : Widgets} {k : KeyTypes} (ks : Keys k) where
  press_key-returns :
      (t : Tree g w) (code : KeyCode k)
      → HasCursor t
      → (t' : Tree g w) × (press_key code t ≡ ok t') × HasCursor t'
  press_key-returns t code (inl absent) = (t, press_key-still t code (inl absent), inl absent)
  press_key-returns t code (inr c) = elim (delta_cases code) [
    | inl e ↦ (t, press_key-still t code (inr e), inr c)
    | inr (x, y, e) ↦
        let m = press_key-CursorMoves t c code x y e in
        (m.after, m.returns, inr (CursorMoves-CursorLeaf t c x y m))
  ]

  -- What the handling of an event did.
  pub record Handles (s : State) (t : Tree g w) (event : Event k)
      (r : Outcome (State × Tree g w × StateHandleResponse)) : Type 0 where
    pub after : State
    pub tree : Tree g w
    pub response : StateHandleResponse
    pub returns : r ≡ ok (after, tree, response)
    pub stateful : after.stateful ≡ next_of ks s.stateful event
    pub last : after.last_stateful ≡ s.stateful
    pub next : response.next_stateful ≡ after.stateful
    pub current : response.stateful ≡ s.stateful
    pub mode : after.mode ≡ Option.get_or (state_mode s.stateful) s.mode
    pub cursor : HasCursor tree

  normal_event-returns :
      (t : Tree g w) (event : Event k)
      → HasCursor t
      → (t' : Tree g w) × (normal_event t event ≡ ok t') × HasCursor t'
  unfolding normal_event
  normal_event-returns t focus_gained h = (t, refl, h)
  normal_event-returns t focus_lost h = (t, refl, h)
  normal_event-returns t (key e) h = elim (kind_cases e.kind) [
    | inl p ↦ let (t', eq, h') = press_key-returns t e.code h in (t', ground (arith, p, eq), h')
    | inr other ↦ (t, ground (arith, other), h)
  ]
  normal_event-returns t (mouse m) h = (t, refl, h)
  normal_event-returns t (paste text) h = (t, refl, h)
  normal_event-returns t (resize columns rows) h = (t, refl, h)

  stateful_handle-returns :
      (v : StatefulValue) (t : Tree g w) (event : Event k)
      → HasCursor t
      → (t' : Tree g w) × (stateful_handle ks v t event ≡ ok (t', next_of ks v event))
        × HasCursor t'
  unfolding stateful_handle normal_handle visual_handle select_handle operator_pending_handle
      insert_handle command_line_handle terminal_handle quit_handle
  stateful_handle-returns normal_mode t event h =
      let (t', eq, h') = normal_event-returns t event h in (t', ground (arith, eq), h')
  stateful_handle-returns visual_mode t event h = (t, refl, h)
  stateful_handle-returns select_mode t event h = (t, refl, h)
  stateful_handle-returns operator_pending_mode t event h = (t, refl, h)
  stateful_handle-returns insert_mode t event h = (t, refl, h)
  stateful_handle-returns command_line_mode t event h = (t, refl, h)
  stateful_handle-returns terminal_mode t event h = (t, refl, h)
  stateful_handle-returns quit_state t event h = (t, refl, h)

  -- In any state, in a tree without a cursor or with one that has a parent and no children, an event
  -- is handled without a panic: the escape key leaves the normal mode for the quit state, every other
  -- event keeps the state, the response and the last state tell what happened, the mode is that of
  -- the state before, and the tree still has no cursor or one with a parent and no children.
  pub handle-Handles :
      (s : State) (t : Tree g w) (event : Event k)
      → HasCursor t
      → Handles s t event (handle ks s t event)
  unfolding handle
  handle-Handles s t event h =
      let (t', eq, h') = stateful_handle-returns s.stateful t event h in
      record {
        after = record {
          stateful = next_of ks s.stateful event;
          last_stateful = s.stateful;
          mode = Option.get_or (state_mode s.stateful) s.mode;
        };
        tree = t';
        response = record { stateful = s.stateful; next_stateful = next_of ks s.stateful event };
        returns = ground (arith, eq);
        stateful = refl;
        last = refl;
        next = refl;
        current = refl;
        mode = refl;
        cursor = h';
      }

  -- The state and the tree after some events, from those of the start.
  pub data Reach (s : State) (t : Tree g w) : State → Tree g w → Type 0 where
    here : Reach s t s t
    next :
        {s' : State} {t' : Tree g w} (event : Event k) (u : State) (v : Tree g w)
        (response : StateHandleResponse)
        → Reach s t s' t'
        → handle ks s' t' event ≡ ok (u, v, response)
        → Reach s t u v

  -- What holds of a state that a new one reaches.
  pub record Started (s : State) (t : Tree g w) : Type 0 where
    pub stateful : (s.stateful ≡ normal_mode) ⊎ (s.stateful ≡ quit_state)
    pub last : (s.last_stateful ≡ normal_mode) ⊎ (s.last_stateful ≡ quit_state)
    pub mode : s.mode ≡ Mode.normal
    pub cursor : HasCursor t

  handle-Started :
      (s u : State) (t v : Tree g w) (event : Event k) (response : StateHandleResponse)
      → Started s t
      → handle ks s t event ≡ ok (u, v, response)
      → Started u v
  unfolding state_mode
  handle-Started s u t v event response i e =
      let h = handle-Handles s t event i.cursor in
      let eu : h.after ≡ u = ground (arith, h.returns, e) in
      let ev : h.tree ≡ v = ground (arith, h.returns, e) in
      record {
        stateful = ground (arith, i.stateful, h.stateful, eu);
        last = ground (arith, i.stateful, h.last, eu);
        mode = ground (arith, i.stateful, i.mode, h.mode, eu);
        cursor = subst HasCursor ev h.cursor;
      }

  -- From a new state, and a tree without a cursor or with one that has a parent and no children,
  -- whatever events are handled: the state and the last state are the normal mode or the quit
  -- state, the mode is the normal mode, and the tree has no cursor or one with a parent and no
  -- children.
  pub Reach-Started :
      (tree : Tree g w) {s : State} {t : Tree g w}
      → HasCursor tree
      → Reach new tree s t
      → Started s t
  unfolding new
  Reach-Started tree h here = record {
    stateful = inl refl;
    last = inl refl;
    mode = refl;
    cursor = h;
  }
  Reach-Started tree h (next event u v response r e) =
      handle-Started _ u _ v event response (Reach-Started tree h r) e

  -- In a tree without a cursor or with one that has a parent and no children, the event loop goes
  -- on without a panic: it is cancelled by an event that leads to the quit state, by an error and
  -- by the end of the events, and by nothing else, and the tree has no cursor or one with a parent
  -- and no children.
  pub process_event_lem :
      (l : EventLoop g w) (p : Polled k)
      → HasCursor l.tree
      → (after : EventLoop g w) × (process_event ks l p ≡ ok after)
        × (after.cancelled ≡ (l.cancelled || stops ks l.state.stateful p))
        × HasCursor after.tree
  unfolding process_event
  process_event_lem l (event_ok event) h =
      let hs = handle-Handles l.state l.tree event h in
      (
        record {
          state = hs.after;
          tree = hs.tree;
          cancelled = if is_quit hs.response.next_stateful then true else l.cancelled;
        },
        ground (arith, hs.returns),
        ground (arith, hs.next, hs.stateful),
        hs.cursor,
      )
  process_event_lem l event_err h = (record l { cancelled = true }, refl, ground arith, h)
  process_event_lem l event_end h = (record l { cancelled = true }, refl, ground arith, h)
