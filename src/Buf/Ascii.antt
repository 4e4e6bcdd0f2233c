-- ===== src/Buf/Ascii.antt =====
-- rsvim_core/src/defaults/grapheme.rs: the printed names of the ASCII control codes. `AsciiChar` is a
-- code below 128, named by the crate `ascii` after the standard.
use rsvim.Prelude.{
  ℕ, ◌+◌, ◌<◌, ◌≡◌, Bool, ◌||◌, ltb, ◌==◌, if◌then◌else◌, List, [], ◌∷◌, Outcome, ok, unwrap,
  get_elem?, arith,
}

-- `char::is_ascii_control`
abbrev pub is_ascii_control : ℕ → Bool
is_ascii_control c = ltb c 32 || c == 127

-- `^` and one character
abbrev pub caret : ℕ → List ℕ
caret c = b'^' ∷ c ∷ []

-- The names that `impl Display` writes, in the order of the codes.
abbrev pub names : List (List ℕ)
names =
    caret b'@'
    ∷ caret b'A'
    ∷ caret b'B'
    ∷ caret b'C'
    ∷ caret b'D'
    ∷ caret b'E'
    ∷ caret b'F'
    ∷ caret b'G'
    ∷ caret b'H'
    ∷ (9 ∷ [])
    ∷ (10 ∷ [])
    ∷ caret b'K'
    ∷ caret b'L'
    ∷ caret b'M'
    ∷ caret b'0'
    ∷ caret b'N'
    ∷ caret b'P'
    ∷ caret b'Q'
    ∷ caret b'R'
    ∷ caret b'S'
    ∷ caret b'T'
    ∷ caret b'U'
    ∷ caret b'V'
    ∷ caret b'W'
    ∷ caret b'X'
    ∷ caret b'Y'
    ∷ caret b'Z'
    ∷ caret b'['
    ∷ caret 92
    ∷ caret b']'
    ∷ caret b'^'
    ∷ caret b'_'
    ∷ []

-- `impl Display`. Any other code is unreachable there.
unfoldable pub fmt : ℕ → Outcome (List ℕ)
fmt value = unwrap (get_elem? names value)

-- The name of a control code but for tab, line feed and three more is `^` and the character 64 codes
-- on; the names of shift-in and shift-out are not.
pub fmt_lem :
    (c : ℕ)
    → c < 32
    → fmt c ≡ (
        if c == 9
        then ok (9 ∷ [])
        else if c == 10
        then ok (10 ∷ [])
        else if c == 14
        then ok (caret b'0')
        else if c == 15
        then ok (caret b'N')
        else ok (caret (c + 64)))
unfolding fmt
fmt_lem c h = ground arith
