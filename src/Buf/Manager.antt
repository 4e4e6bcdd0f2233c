-- ===== src/Buf/Manager.antt =====
-- rsvim_core/src/buf.rs: the manager of the buffers. A buffer is shared between the two maps of the
-- manager: it stands in `arcs`, at its number, and the maps hold the number. The counter of
-- `next_buffer_id`, a static variable, is a field. The file system is a parameter of the operations that
-- read it.
pub mod Paths
pub mod Reopen
use rsvim.Prelude.{
  ℕ, ◌+◌, ◌≡◌, ◌==◌, Bool, true, false, not, if◌then◌else◌, Option, some, none, List, [], ◌∷◌,
  length, Outcome, ok, ◌>>=◌, ◌>>◌, assert, Map, insert_ordered, lookup, contains_key, remove,
}
use rsvim.Buf.Rope.{Texts}
use rsvim.Buf.Buffer.{FileTypes, BufferLocalOptions, FileEncoding, utf8, default_options, Buffer}
use rsvim.Buf.Buffer

-- `IoResult`
pub data IoResult (E A : Type 0) : Type 0 where
  done : A → IoResult E A
  failed : E → IoResult E A

-- The file system and the clock, at the time of a call.
pub record FileSystem (x : Texts) (f : FileTypes) : Type 1 where
  pub Error : Type 0
  pub File : Type 0
  -- `Path::absolutize`
  pub absolutize : f.PathBuf → IoResult Error f.PathBuf
  -- `std::fs::exists` and `File::open`
  pub exists : f.PathBuf → IoResult Error Bool
  pub open_file : f.PathBuf → IoResult Error File
  pub metadata : File → IoResult Error f.Metadata
  -- `read_to_end`: how many bytes were read, and the bytes.
  pub read_to_end : File → IoResult Error (ℕ × List ℕ)
  pub read_to_end_lem :
      (file : File) (n : ℕ) (bytes : List ℕ) → read_to_end file ≡ done (n, bytes) → n ≡ length bytes
  -- `String::from_utf8_lossy` and `RopeBuilder`
  pub rope_from_utf8_lossy : List ℕ → x.Rope
  -- `Instant::now`
  pub now : f.Instant

-- `BuffersManager::to_rope`, which `to_str` helps.
unfoldable pub to_rope : {Rope : Type 0} → FileEncoding → (List ℕ → Rope) → List ℕ → Rope
to_rope utf8 rope_from_utf8_lossy buf = rope_from_utf8_lossy buf

module _ (f : FileTypes) where
  -- Equality of `Option<PathBuf>`.
  unfoldable pub key_eq : Option f.PathBuf → Option f.PathBuf → Bool
  key_eq none none = true
  key_eq none (some b) = false
  key_eq (some a) none = false
  key_eq (some a) (some b) = f.path_eq a b

  unfoldable pub contains_path : Option f.PathBuf → List (Option f.PathBuf × ℕ) → Bool
  contains_path k [] = false
  contains_path k ((j, id) ∷ m) = if key_eq k j then true else contains_path k m

  unfoldable pub insert_path :
      Option f.PathBuf → ℕ → List (Option f.PathBuf × ℕ) → List (Option f.PathBuf × ℕ)
  insert_path k id [] = (k, id) ∷ []
  insert_path k id ((j, id') ∷ m) =
      let rest = insert_path k id m in if key_eq k j then (k, id) ∷ m else (j, id') ∷ rest

module _ (x : Texts) (f : FileTypes) where
  pub record BuffersManager : Type 0 where
    pub next_id : ℕ
    pub arcs : Map (Buffer x f)
    pub buffers : Map ℕ
    pub buffers_by_path : List (Option f.PathBuf × ℕ)
    pub local_options : BufferLocalOptions

module _ {x : Texts} {f : FileTypes} where
  -- `BuffersManager::new`, when no buffer has been made yet.
  unfoldable pub new : BuffersManager x f
  new = record {
    next_id = 1;
    arcs = [];
    buffers = [];
    buffers_by_path = [];
    local_options = default_options;
  }

  -- The end of both operations that open a buffer: the new buffer `buf` goes into both maps.
  unfoldable pub insert_buffer :
      Option f.PathBuf → Buffer x f → BuffersManager x f → BuffersManager x f × ℕ
  insert_buffer key buf m = (
    record m {
      next_id = m.next_id + 1;
      arcs = insert_ordered buf.id buf m.arcs;
      buffers = insert_ordered buf.id buf.id m.buffers;
      buffers_by_path = insert_path f key buf.id m.buffers_by_path;
    },
    buf.id,
  )

  unfoldable pub edit_file :
      (fs : FileSystem x f)
      → f.PathBuf
      → f.PathBuf
      → BuffersManager x f
      → Outcome (IoResult fs.Error (Buffer x f))
  edit_file fs filename absolute_filename m = elim (fs.open_file filename) [
    | failed e ↦ ok (failed e)
    | done fp ↦ elim (fs.metadata fp) [
      | failed e ↦ ok (failed e)
      | done metadata ↦ elim (fs.read_to_end fp) [
        | failed e ↦ ok (failed e)
        | done read ↦ (do
          assert (read.0 == length read.1)
          ok (
              done (
                Buffer.new m.next_id
                  (to_rope m.local_options.file_encoding fs.rope_from_utf8_lossy read.1)
                  m.local_options (some filename) (some absolute_filename) (some metadata)
                  (some fs.now))))
      ]
    ]
  ]

  unfoldable pub new_file_buffer :
      (fs : FileSystem x f)
      → f.PathBuf
      → BuffersManager x f
      → Outcome (BuffersManager x f × IoResult fs.Error ℕ)
  new_file_buffer fs filename m = elim (fs.absolutize filename) [
    | failed e ↦ ok (m, failed e)
    | done abs_filename ↦ (do
      assert (not (contains_path f (some abs_filename) m.buffers_by_path))
      elim (fs.exists abs_filename) [
        | failed e ↦ ok (m, failed e)
        | done existed ↦ (do
          buf ←
              if existed
              then edit_file fs filename abs_filename m
              else ok (
                  done (
                    Buffer.new m.next_id x.empty m.local_options (some filename) (some abs_filename)
                      none none))
          elim buf [
            | failed e ↦ ok (m, failed e)
            | done b ↦ let r = insert_buffer (some abs_filename) b m in ok (r.0, done r.1)
          ])
      ])
  ]

  unfoldable pub new_empty_buffer : BuffersManager x f → Outcome (BuffersManager x f × ℕ)
  new_empty_buffer m = do
    assert (not (contains_path f none m.buffers_by_path))
    ok (insert_buffer none (Buffer.new m.next_id x.empty m.local_options none none none none) m)

  unfoldable pub is_empty : BuffersManager x f → Bool
  is_empty m = length m.buffers == 0

  unfoldable pub len : BuffersManager x f → ℕ
  len m = length m.buffers

  -- `BuffersManager::remove`, with the buffer that was removed.
  unfoldable pub remove_buffer : ℕ → BuffersManager x f → BuffersManager x f × Option ℕ
  remove_buffer id m = (record m { buffers = remove id m.buffers }, lookup id m.buffers)

  unfoldable pub get : ℕ → BuffersManager x f → Option ℕ
  get id m = lookup id m.buffers

  unfoldable pub contains_buffer : ℕ → BuffersManager x f → Bool
  contains_buffer id m = contains_key id m.buffers

  unfoldable pub set_local_options : BufferLocalOptions → BuffersManager x f → BuffersManager x f
  set_local_options options m = record m { local_options = options }
