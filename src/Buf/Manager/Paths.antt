-- ===== src/Buf/Manager/Paths.antt =====
-- Opening files: what becomes of the manager, and that a path is never open twice.
use rsvim.Prelude.{
  ℕ, ◌+◌, ◌≡◌, refl, ◌⊎◌, inl, inr, ◌==◌, Bool, true, false, Bool-cases, Option, some, none, List,
  [], ◌∷◌, ◌++◌, length, length-append, Outcome, ok, panic, Map, lookup, KeysBelow, KeysBelow-snoc,
  insert_ordered_end, arith,
}
use mathlib.Core.Path.{subst}
use rsvim.Buf.Rope.{Texts}
use rsvim.Buf.Buffer.{FileTypes, Buffer}
use rsvim.Buf.Buffer
use rsvim.Buf.Manager.{
  IoResult, done, failed, FileSystem, key_eq, contains_path, insert_path, to_rope, BuffersManager,
  insert_buffer, edit_file, new_file_buffer, get, len,
}

key_eq_refl : (f : FileTypes) (k : Option f.PathBuf) → key_eq f k k ≡ true
unfolding key_eq
key_eq_refl f none = refl
key_eq_refl f (some a) = (f.path_eq_iff a a).1 refl

contains_path-insert_path :
    (f : FileTypes) (k : Option f.PathBuf) (id : ℕ) (m : List (Option f.PathBuf × ℕ))
    → contains_path f k (insert_path f k id m) ≡ true
unfolding contains_path insert_path
contains_path-insert_path f k id [] = rw (key_eq_refl f k) refl
contains_path-insert_path f k id ((j, id') ∷ m) = elim (Bool-cases (key_eq f k j)) [
  | inl e ↦ rw e (rw (key_eq_refl f k) refl)
  | inr e ↦ rw e (rw e (contains_path-insert_path f k id m))
]

lookup_end :
    {V : Type 0} (k : ℕ) (v : V) (m : Map V) → KeysBelow k m → lookup k (m ++ (k, v) ∷ []) ≡ some v
lookup_end k v [] h = ground arith
lookup_end k v ((j, u) ∷ m) (lt, h) = ground (arith, lookup_end k v m h)

module _ {x : Texts} {f : FileTypes} where
  -- The numbers of the buffers are below the next one.
  pub record IsNumbered (m : BuffersManager x f) : Type 0 where
    pub arcs : KeysBelow m.next_id m.arcs
    pub buffers : KeysBelow m.next_id m.buffers

  -- A new buffer with the path `abs` was opened: it has the next number, stands in both maps, and the
  -- manager has one more buffer.
  pub record Opened (m : BuffersManager x f) (key : Option f.PathBuf) (after : BuffersManager x f)
      (id : ℕ) : Type 0 where
    pub buffer : Buffer x f
    pub number : id ≡ m.next_id
    pub arc : lookup id after.arcs ≡ some buffer
    pub path : buffer.absolute_filename ≡ key
    pub found : get id after ≡ some id
    pub open_path : contains_path f key after.buffers_by_path ≡ true
    pub count : len after ≡ len m + 1
    pub numbered : IsNumbered after

  insert_buffer-Opened :
      (m : BuffersManager x f) (key : Option f.PathBuf) (b : Buffer x f)
      → IsNumbered m
      → b.id ≡ m.next_id
      → b.absolute_filename ≡ key
      → Opened m key (insert_buffer key b m).0 (insert_buffer key b m).1
  unfolding insert_buffer get len
  insert_buffer-Opened m key b h e ep =
      let below_arcs : KeysBelow b.id m.arcs = rw e h.arcs in
      let below : KeysBelow b.id m.buffers = rw e h.buffers in
      let arcs = insert_ordered_end b.id b m.arcs below_arcs in
      let buffers = insert_ordered_end b.id b.id m.buffers below in
      record {
        buffer = b;
        number = e;
        arc = rw arcs (lookup_end b.id b m.arcs below_arcs);
        path = ep;
        found = rw buffers (lookup_end b.id b.id m.buffers below);
        open_path = contains_path-insert_path f key b.id m.buffers_by_path;
        count = rw buffers (length-append m.buffers ((b.id, b.id) ∷ []));
        numbered = record {
          arcs = rw arcs (
              subst (λ n. KeysBelow (n + 1) (m.arcs ++ (b.id, b) ∷ [])) e
                (KeysBelow-snoc b.id b m.arcs below_arcs));
          buffers = rw buffers (
              subst (λ n. KeysBelow (n + 1) (m.buffers ++ (b.id, b.id) ∷ [])) e
                (KeysBelow-snoc b.id b.id m.buffers below));
        };
      }

  -- What `new_file_buffer` does for a path that is not open: it returns an error of the file system, and the
  -- manager is the same, or it opens a buffer with this path.
  pub record Opens (fs : FileSystem x f) (m : BuffersManager x f) (abs : f.PathBuf)
      (r : Outcome (BuffersManager x f × IoResult fs.Error ℕ)) : Type 0 where
    pub after : BuffersManager x f
    pub result : IoResult fs.Error ℕ
    pub returns : r ≡ ok (after, result)
    pub effect :
        ((e : fs.Error) × (result ≡ failed e) × (after ≡ m))
        ⊎ ((id : ℕ) × (result ≡ done id) × Opened m (some abs) after id)

  module _ (fs : FileSystem x f) (filename : f.PathBuf) (m : BuffersManager x f) (abs : f.PathBuf)
      (absolute : fs.absolutize filename ≡ done abs) where
    pub new_file_buffer-open :
        contains_path f (some abs) m.buffers_by_path ≡ true → new_file_buffer fs filename m ≡ panic
    unfolding new_file_buffer
    new_file_buffer-open e = rw (absolute, new_file_buffer) (rw e refl)

    -- A buffer that was read or made has the next number and the path.
    Made : IoResult fs.Error (Buffer x f) → Type 0
    Made (failed e) = Unit
    Made (done b) = (b.id ≡ m.next_id) × (b.absolute_filename ≡ some abs)

    edit_file-Made :
        (buf : IoResult fs.Error (Buffer x f)) × (edit_file fs filename abs m ≡ ok buf) × Made buf
    unfolding edit_file Made Buffer.new
    edit_file-Made = opened (fs.open_file filename) refl
      where
        read :
            (fp : fs.File) (meta : f.Metadata) (r : IoResult fs.Error (ℕ × List ℕ))
            → fs.open_file filename ≡ done fp
            → fs.metadata fp ≡ done meta
            → fs.read_to_end fp ≡ r
            → (buf : IoResult fs.Error (Buffer x f)) × (edit_file fs filename abs m ≡ ok buf)
              × Made buf
        read fp meta (failed e) ef em er = (failed e, rw (ef, edit_file) (rw em (rw er refl)), tt)
        read fp meta (done (n, bytes)) ef em er =
            let counted : (n == length bytes) ≡ true =
              ground (arith, fs.read_to_end_lem fp n bytes er) in
            (
              done (
                  Buffer.new m.next_id
                    (to_rope m.local_options.file_encoding fs.rope_from_utf8_lossy bytes)
                    m.local_options (some filename) (some abs) (some meta) (some fs.now)),
              rw (ef, edit_file) (rw em (rw er (rw counted refl))),
              (refl, refl),
            )

        with_metadata :
            (fp : fs.File) (r : IoResult fs.Error f.Metadata)
            → fs.open_file filename ≡ done fp
            → fs.metadata fp ≡ r
            → (buf : IoResult fs.Error (Buffer x f)) × (edit_file fs filename abs m ≡ ok buf)
              × Made buf
        with_metadata fp (failed e) ef em = (failed e, rw (ef, edit_file) (rw em refl), tt)
        with_metadata fp (done meta) ef em = read fp meta (fs.read_to_end fp) ef em refl

        opened :
            (r : IoResult fs.Error fs.File)
            → fs.open_file filename ≡ r
            → (buf : IoResult fs.Error (Buffer x f)) × (edit_file fs filename abs m ≡ ok buf)
              × Made buf
        opened (failed e) ef = (failed e, rw (ef, edit_file) refl, tt)
        opened (done fp) ef = with_metadata fp (fs.metadata fp) ef refl

    -- The end of `new_file_buffer`.
    finish-Opens :
        {r : Outcome (BuffersManager x f × IoResult fs.Error ℕ)}
        (buf : IoResult fs.Error (Buffer x f))
        → IsNumbered m
        → Made buf
        → r ≡ elim buf [
          | failed e ↦ ok (m, failed e)
          | done b ↦ let i = insert_buffer (some abs) b m in ok (i.0, done i.1)
        ]
        → Opens fs m abs r
    unfolding Made
    finish-Opens (failed e) h made er = record {
      after = m;
      result = failed e;
      returns = er;
      effect = inl (e, refl, refl);
    }
    finish-Opens (done b) h made er =
        let i = insert_buffer (some abs) b m in
        record {
          after = i.0;
          result = done i.1;
          returns = er;
          effect = inr (i.1, refl, insert_buffer-Opened m (some abs) b h made.0 made.1);
        }

    -- In a manager whose buffers have numbers below the next one, for a path that is not open and whose
    -- absolute form the file system has: `new_file_buffer` returns, without a panic. It returns an error and
    -- leaves the manager as it was, or it opens a new buffer with this path.
    pub new_file_buffer-Opens :
        IsNumbered m
        → contains_path f (some abs) m.buffers_by_path ≡ false
        → Opens fs m abs (new_file_buffer fs filename m)
    unfolding new_file_buffer Made Buffer.new
    new_file_buffer-Opens h e = go (fs.exists abs) refl
      where
        go :
            (r : IoResult fs.Error Bool)
            → fs.exists abs ≡ r
            → Opens fs m abs (new_file_buffer fs filename m)
        go (failed err) ex = record {
          after = m;
          result = failed err;
          returns = rw (absolute, new_file_buffer) (rw e (rw ex refl));
          effect = inl (err, refl, refl);
        }
        go (done false) ex =
            finish-Opens
              (done
                (Buffer.new m.next_id x.empty m.local_options (some filename) (some abs) none none))
              h (refl, refl) (rw (absolute, new_file_buffer) (rw e (rw ex refl)))
        go (done true) ex =
            let (buf, eb, made) = edit_file-Made in
            finish-Opens buf h made (rw (absolute, new_file_buffer) (rw e (rw ex (rw eb refl))))
