-- ===== src/Buf/Tests.antt =====
-- The widths and symbols of a bell, a tab and a wide character, and a manager that opens files.
use rsvim.Prelude.{◌≡◌, refl, panic, some, none}
use rsvim.Buf.Buffer.{char_symbol}
use rsvim.Buf.Buffer
use rsvim.Buf.Buffer.{default_options}
use rsvim.Buf.Manager.{
  BuffersManager, new, contains_path, insert_path, insert_buffer, new_file_buffer, remove_buffer,
}
use rsvim.Buf.Manager.Paths.{Opens, new_file_buffer-Opens}
use rsvim.Buf.Manager.Reopen.{new-IsNumbered, reopen_panics}
use rsvim.Buf.Sample.{texts, files, disk}

new_file_buffer-Opens_example : Opens disk new 1 (new_file_buffer disk 1 new)
unfolding new contains_path
new_file_buffer-Opens_example = new_file_buffer-Opens disk 1 new 1 refl new-IsNumbered refl

abbrev opened : BuffersManager texts files
opened =
    (insert_buffer (some 2) (Buffer.new 1 texts.empty default_options (some 2) (some 2) none none)
      new).0

reopen_panics_example : new_file_buffer disk 2 (remove_buffer 1 opened).0 ≡ panic
unfolding new new_file_buffer contains_path insert_buffer insert_path Buffer.new
reopen_panics_example = reopen_panics disk 2 2 new opened 1 refl new-IsNumbered refl
