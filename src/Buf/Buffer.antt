-- ===== src/Buf/Buffer.antt =====
-- rsvim_core/src/buf.rs: a buffer, and how wide its characters are. The paths, the metadata and the
-- time of the last synchronization are parameters.
use rsvim.Prelude.{
  Bool, true, ◌≡◌, ◌↔◌, ℕ, ◌+◌, ◌==◌, ◌||◌, if◌then◌else◌, Option, none, List, [], ◌∷◌, ◌++◌,
  length, replicate, Outcome, ok, ◌>>=◌, unwrap,
}
use rsvim.Buf.Rope.{Texts}
use rsvim.Buf.Ascii.{is_ascii_control, fmt}

pub record FileTypes : Type 1 where
  pub PathBuf : Type 0
  pub path_eq : PathBuf → PathBuf → Bool
  pub path_eq_iff : (a b : PathBuf) → (path_eq a b ≡ true) ↔ (a ≡ b)
  pub Metadata : Type 0
  pub Instant : Type 0

-- `FileEncoding`
pub data FileEncoding : Type 0 where
  utf8 : FileEncoding

pub record BufferLocalOptions : Type 0 where
  pub tab_stop : ℕ
  pub file_encoding : FileEncoding

-- `BufferLocalOptionsBuilder::default`, built.
abbrev pub default_options : BufferLocalOptions
default_options = record { tab_stop = 8; file_encoding = utf8 }

module _ (x : Texts) (f : FileTypes) where
  pub record Buffer : Type 0 where
    pub id : ℕ
    pub rope : x.Rope
    pub options : BufferLocalOptions
    pub filename : Option f.PathBuf
    pub absolute_filename : Option f.PathBuf
    pub metadata : Option f.Metadata
    pub last_sync_time : Option f.Instant

module _ {x : Texts} {f : FileTypes} where
  -- `Buffer::_new`, with the number that `next_buffer_id` hands out.
  unfoldable pub new :
      ℕ
      → x.Rope
      → BufferLocalOptions
      → Option f.PathBuf
      → Option f.PathBuf
      → Option f.Metadata
      → Option f.Instant
      → Buffer x f
  new next_buffer_id rope options filename absolute_filename metadata last_sync_time = record {
    id = next_buffer_id;
    rope = rope;
    options = options;
    filename = filename;
    absolute_filename = absolute_filename;
    metadata = metadata;
    last_sync_time = last_sync_time;
  }

  -- `Buffer::_new_empty`
  unfoldable pub new_empty : ℕ → BufferLocalOptions → Buffer x f
  new_empty next_buffer_id options = record {
    id = next_buffer_id;
    rope = x.empty;
    options = options;
    filename = none;
    absolute_filename = none;
    metadata = none;
    last_sync_time = none;
  }

  abbrev pub tab_stop : Buffer x f → ℕ
  tab_stop b = b.options.tab_stop

  unfoldable pub set_tab_stop : ℕ → Buffer x f → Buffer x f
  set_tab_stop value b = record b { options = record b.options { tab_stop = value } }

  unfoldable pub set_options : BufferLocalOptions → Buffer x f → Buffer x f
  set_options options b = record b { options = options }

  abbrev pub get_lines_at : Buffer x f → ℕ → Option (List (List ℕ))
  get_lines_at b line_idx = x.get_lines_at b.rope line_idx

  abbrev pub len_lines : Buffer x f → ℕ
  len_lines b = length (x.lines b.rope)

  unfoldable pub char_width : Buffer x f → ℕ → Outcome ℕ
  char_width b c =
      if is_ascii_control c
      then (if c == 9
          then ok (tab_stop b)
          else if c == 10 || c == 13
          then ok 0
          else (do s ← fmt c; ok (length s)))
      else unwrap (x.width_cjk c)

  unfoldable pub char_symbol : Buffer x f → ℕ → Outcome (List ℕ × ℕ)
  char_symbol b c = do
    width ← char_width b c
    if is_ascii_control c
        then (if c == 9
            then ok (replicate (tab_stop b) b' ', width)
            else if c == 10 || c == 13
            then ok ([], width)
            else (do s ← fmt c; ok (s, width)))
        else ok (c ∷ [], width)

  unfoldable pub str_width : Buffer x f → List ℕ → Outcome ℕ
  str_width b [] = ok 0
  str_width b (c ∷ cs) = do width ← char_width b c; rest ← str_width b cs; ok (width + rest)

  -- The fold of `str_symbols`, over the symbols and widths of the characters.
  unfoldable pub symbols_loop : Buffer x f → List ℕ → List ℕ × ℕ → Outcome (List ℕ × ℕ)
  symbols_loop b [] init = ok init
  symbols_loop b (c ∷ cs) init = do
    s ← char_symbol b c
    symbols_loop b cs (init.0 ++ s.0, init.1 + s.1)

  unfoldable pub str_symbols : Buffer x f → List ℕ → Outcome (List ℕ × ℕ)
  str_symbols b s = symbols_loop b s ([], 0)
