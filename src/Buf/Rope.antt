-- ===== src/Buf/Rope.antt =====
-- The crates `ropey`, `unicode-width` and `unicode-segmentation`: texts by their lines, the widths of
-- characters, and the words of a text. A character is its code point.
use rsvim.Prelude.{
  ℕ, ◌<◌, ◌≡◌, Option, some, none, List, [], ◌∷◌, ◌++◌, leb, length, drop, if◌then◌else◌,
}

-- The characters of the lines of a list, one line after the other.
abbrev pub concat : List (List ℕ) → List ℕ
concat [] = []
concat (l ∷ ls) = l ++ concat ls

-- Every line but the last has a character, its line break.
abbrev pub AreLines : List (List ℕ) → Type 0
AreLines [] = Unit
AreLines (l ∷ []) = Unit
AreLines (l ∷ m ∷ ls) = (0 < length l) × AreLines (m ∷ ls)

pub record Texts : Type 1 where
  pub Rope : Type 0
  pub empty : Rope
  pub lines : Rope → List (List ℕ)
  -- Also the empty text has a line.
  pub some_line : (r : Rope) → 0 < length (lines r)
  pub lines-AreLines : (r : Rope) → AreLines (lines r)
  -- The lines from a given one on. The index may be one past the last line.
  pub get_lines_at : Rope → ℕ → Option (List (List ℕ))
  pub get_lines_at_lem :
      (r : Rope) (n : ℕ)
      → get_lines_at r n ≡ (if leb n (length (lines r)) then some (drop n (lines r)) else none)
  -- `RopeSlice::get_chars_at` of a line. The index may be one past the last character.
  pub get_chars_at : List ℕ → ℕ → Option (List ℕ)
  pub get_chars_at_lem :
      (l : List ℕ) (n : ℕ) → get_chars_at l n ≡ (if leb n (length l) then some (drop n l) else none)
  -- `UnicodeWidthChar::width_cjk`, which has no width for some characters.
  pub width_cjk : ℕ → Option ℕ
  -- `split_word_bounds`: the words put together give the text.
  pub split_word_bounds : List ℕ → List (List ℕ)
  pub concat-split_word_bounds : (s : List ℕ) → concat (split_word_bounds s) ≡ s
