-- ===== src/State/Keys.antt =====
-- The events of the crate `crossterm`, with the constructors that the handlers match on. The other
-- keys, the modifiers and the other events' contents are parameters.
use rsvim.Prelude.{ℕ, ◌≡◌, Bool, true}

pub record KeyTypes : Type 1 where
  pub OtherKey : Type 0
  pub Modifiers : Type 0
  pub KeyState : Type 0
  pub MouseEvent : Type 0
  pub Text : Type 0

pub data KeyEventKind : Type 0 where
  press : KeyEventKind
  repeat : KeyEventKind
  release : KeyEventKind

module _ (k : KeyTypes) where
  pub data KeyCode : Type 0 where
    up : KeyCode
    down : KeyCode
    left : KeyCode
    right : KeyCode
    esc : KeyCode
    char : ℕ → KeyCode
    other : k.OtherKey → KeyCode

  pub record KeyEvent : Type 0 where
    pub code : KeyCode
    pub modifiers : k.Modifiers
    pub kind : KeyEventKind
    pub state : k.KeyState

  pub data Event : Type 0 where
    focus_gained : Event
    focus_lost : Event
    key : KeyEvent → Event
    mouse : k.MouseEvent → Event
    paste : k.Text → Event
    resize : ℕ → ℕ → Event

  -- `From<KeyCode>` of a key event, a press without modifiers, and the equality of key events, which
  -- tells the escape key from the others.
  pub record Keys : Type 0 where
    pub of_code : KeyCode → KeyEvent
    pub of_code-code : (c : KeyCode) → (of_code c).code ≡ c
    pub of_code-kind : (c : KeyCode) → (of_code c).kind ≡ press
    pub key_event_eq : KeyEvent → KeyEvent → Bool
    pub key_event_eq-refl : (a : KeyEvent) → key_event_eq a a ≡ true
    pub key_event_eq-esc : (a : KeyEvent) → key_event_eq a (of_code esc) ≡ true → a.code ≡ esc
