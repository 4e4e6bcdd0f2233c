-- ===== src/Buf/Sample.antt =====
-- Texts as lists of lines: the assumptions on the crates for texts can be met. A buffer of two lines.
use rsvim.Prelude.{
  ◌≡◌, ==_iff, ℕ, refl, ◌<◌, ltb, leb, ◌==◌, if◌then◌else◌, some, none, List, [], ◌∷◌, length, drop,
  arith,
}
use mathlib.Core.List.{append-nil}
use rsvim.Buf.Rope.{AreLines, Texts}
use rsvim.Buf.Manager.{IoResult, done, FileSystem}
use rsvim.Buf.Buffer.{FileTypes, Buffer, default_options}

abbrev pub texts : Texts
texts = record {
  Rope = (ls : List (List ℕ)) × (0 < length ls) × AreLines ls;
  empty = ([] ∷ [], omega arith, tt);
  lines = λ r. r.0;
  some_line = λ r. r.1;
  lines-AreLines = λ r. r.2;
  get_lines_at = λ r n. if leb n (length r.0) then some (drop n r.0) else none;
  get_lines_at_lem = λ r n. refl;
  get_chars_at = λ l n. if leb n (length l) then some (drop n l) else none;
  get_chars_at_lem = λ l n. refl;
  width_cjk = λ c. if ltb c 32 then none else if ltb c 4352 then some 1 else some 2;
  split_word_bounds = λ s. s ∷ [];
  concat-split_word_bounds = append-nil;
}

abbrev pub files : FileTypes
files = record {
  PathBuf = ℕ;
  path_eq = λ a b. a == b;
  path_eq_iff = ==_iff;
  Metadata = Unit;
  Instant = Unit;
}

-- `abc` and a line break, and a line of one wide character.
abbrev pub two_lines : Buffer texts files
two_lines = record {
  id = 1;
  rope = ((97 ∷ 98 ∷ 99 ∷ 10 ∷ []) ∷ (19968 ∷ []) ∷ [], omega arith, (omega arith, tt));
  options = default_options;
  filename = none;
  absolute_filename = none;
  metadata = none;
  last_sync_time = none;
}

-- The widths of its characters.
abbrev pub widths : ℕ → ℕ
widths c = if c == 10 then 0 else if ltb c 4352 then 1 else 2

pub one_byte :
    (file n : ℕ) (bytes : List ℕ)
    → ◌≡◌ {A = IoResult Unit (ℕ × List ℕ)} (done (1, 65 ∷ [])) (done (n, bytes))
    → n ≡ length bytes
one_byte file n bytes e = ground arith

-- A disk with the file 1.
abbrev pub disk : FileSystem texts files
disk = record {
  Error = Unit;
  File = ℕ;
  absolutize = λ p. done p;
  exists = λ p. done (p == 1);
  open_file = λ p. done p;
  metadata = λ file. done tt;
  read_to_end = λ file. done (1, 65 ∷ []);
  read_to_end_lem = one_byte;
  rope_from_utf8_lossy = λ s. (s ∷ [], omega arith, tt);
  now = tt;
}
