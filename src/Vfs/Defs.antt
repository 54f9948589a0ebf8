-- ===== src/Vfs/Defs.antt =====
-- The functions of kernel/src/vfs.c. Each runs under the lock of the file system, so it is one step;
-- the volume and the heap are what it works on.
use reborn_os.Prelude.{
  ℕ, not, Option, none, some, List, ◌==◌, if◌then◌else◌, Outcome, ok, panic, ◌>>=◌, within,
}
use reborn_os.Heap.{Heap, kmalloc}
use reborn_os.Fat16.Name.{Buf}
use reborn_os.Fat16.Volume.{Volume, Fault, fresh}
use reborn_os.Fat16.File.{FileRef, fat16_open, fat16_read, fat16_list_dir, fat16_write_file}

-- Where a call ends in panic().
pub data VfsPanic : Type 0 where
  no_buffer short_read : VfsPanic
  in_fat16 : Fault → VfsPanic

-- A file in a buffer of its own: the pointer, the bytes and the size.
pub record Loaded : Type 0 where
  pub buf : ℕ
  pub bytes : Buf
  pub size : ℕ

-- kmalloc always ends; the case that it does not is counted as a failure.
abbrev pub buffer_for : Option (ℕ × Heap) → Outcome VfsPanic (ℕ × Heap)
buffer_for none = panic no_buffer
buffer_for (some (p, h)) = if p == 0 then panic no_buffer else ok (p, h)

abbrev pub whole_file : FileRef → ℕ → Buf → ℕ → Outcome VfsPanic Loaded
whole_file file p bytes read =
    if not (read == file.size)
    then panic short_read
    else ok (record { buf = p; bytes = bytes; size = file.size })

unfoldable pub read_opened :
    Volume → Heap → Option FileRef → Outcome VfsPanic (Option Loaded × Heap)
read_opened v h none = ok (none, h)
read_opened v h (some file) = do
  (p, h') ← buffer_for (kmalloc h file.size)
  (read, bytes) ← within in_fat16 (fat16_read v file fresh file.size)
  loaded ← whole_file file p bytes read
  ok (some loaded, h')

-- none for a result of 0.
unfoldable pub vfs_read_file : Volume → Heap → List ℕ → Outcome VfsPanic (Option Loaded × Heap)
vfs_read_file v h path = do file ← within in_fat16 (fat16_open v path); read_opened v h file

unfoldable pub read_into : Volume → Buf → ℕ → Option FileRef → Outcome VfsPanic (Option ℕ × Buf)
read_into v buf max_len none = ok (none, buf)
read_into v buf max_len (some file) = do
  (read, bytes) ← within in_fat16 (fat16_read v file buf max_len)
  ok (some read, bytes)

-- The number of bytes, or none for -1, and the buffer.
unfoldable pub vfs_read_file_into : Volume → List ℕ → Buf → ℕ → Outcome VfsPanic (Option ℕ × Buf)
vfs_read_file_into v path buf max_len = do
  file ← within in_fat16 (fat16_open v path)
  read_into v buf max_len file

-- fat16_write_file returns 1 or ends in a panic.
unfoldable pub vfs_write_file : Volume → List ℕ → Buf → ℕ → Outcome VfsPanic Volume
vfs_write_file v path src size = within in_fat16 (fat16_write_file v path src size)

unfoldable pub vfs_list_dir : Volume → List ℕ → ℕ → Outcome VfsPanic (Option (List ℕ))
vfs_list_dir v path max_len = within in_fat16 (fat16_list_dir v path max_len)
