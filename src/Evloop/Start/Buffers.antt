-- ===== src/Evloop/Start/Buffers.antt =====
-- rsvim_core/src/evloop.rs: what the event loop finds where no input file can be opened.
use rsvim.Prelude.{◌≡◌, refl, true, List, [], ◌∷◌, ok, panic}
use rsvim.Cart.{U16Size}
use rsvim.Tree.Geo.{Geo}
use rsvim.Tree.Widgets.{Tree}
use rsvim.Buf.Rope.{Texts}
use rsvim.Buf.Buffer.{FileTypes}
use rsvim.Buf.Manager.{
  FileSystem, BuffersManager, done, failed, new, new_file_buffer, edit_file, contains_path,
}
use rsvim.Window.Widget.{WindowLocalOptions}
use rsvim.Evloop.Start.{open_files, init_buffers, NodeIds, widgets, init_windows}

module _ {x : Texts} {f : FileTypes} (fs : FileSystem x f) where
  -- The file is there, and cannot be opened for reading.
  abbrev pub IsRefused : f.PathBuf → Type 0
  IsRefused file =
      (abs : f.PathBuf) × (e : fs.Error) × (fs.absolutize file ≡ done abs)
      × (fs.exists abs ≡ done true)
      × (fs.open_file file ≡ failed e)

  abbrev pub AreRefused : List f.PathBuf → Type 0
  AreRefused [] = Unit
  AreRefused (file ∷ files) = IsRefused file × AreRefused files

  new_file_buffer_refused :
      (file : f.PathBuf)
      → IsRefused file
      → (e : fs.Error) × (new_file_buffer fs file new ≡ ok (new, failed e))
  unfolding new_file_buffer edit_file new contains_path
  new_file_buffer_refused file (abs, e, absolute, there, refused) =
      (e, rw (absolute, new_file_buffer) (rw there (rw (refused, edit_file) refl)))

  open_files_refused :
      (files : List f.PathBuf) → AreRefused files → open_files fs files new ≡ ok new
  unfolding open_files
  open_files_refused [] h = refl
  open_files_refused (file ∷ files) (r, h) =
      let (e, eq) = new_file_buffer_refused file r in rw eq (open_files_refused files h)

  -- Where there are input files and none can be opened, the buffers are made without an error, and the
  -- window is made for the first of no buffers: this panics.
  pub init_windows_panics :
      {g : Geo} (file : f.PathBuf) (files : List f.PathBuf) (ids : NodeIds) (canvas_size : U16Size)
      (local_options : WindowLocalOptions) (tree : Tree g (widgets g))
      → AreRefused (file ∷ files)
      → (buffers : BuffersManager x f) × (init_buffers fs (file ∷ files) new ≡ ok buffers)
        × (init_windows ids canvas_size local_options buffers tree ≡ panic)
  unfolding init_buffers init_windows
  init_windows_panics file files ids canvas_size local_options tree h =
      (new, open_files_refused (file ∷ files) h, unfold new in refl)
