-- ===== src/Vfs/Tests.antt =====
-- Runs of kernel/src/vfs.c on a small volume whose root directory holds HI with three bytes.
use reborn_os.Prelude.{
  ℕ, ◌-◌, ◌≡◌, refl, some, List, [], ◌∷◌, ◌++◌, leb, ◌==◌, if◌then◌else◌, get_or, replicate, ok,
  arith,
}
use reborn_os.Heap.Tests.{boot_heap, one_block, boot_heap-IsHeap}
use reborn_os.Fat16.Name.{Buf, format_83, base_loop, skip_to_dot, ext_loop, ext_part, names_match}
use reborn_os.Fat16.Volume.{Volume, read_sectors}
use reborn_os.Fat16.Dir.{
  find_loop, find_entry_in_dir, read_directory, resolve_parent_dir, entry_at, parent_loop,
  skip_slashes, component,
}
use reborn_os.Fat16.File.{FileRef, fat16_open, open_in}
use reborn_os.Fat16.Chain.{Mounted, Holds, more, done}
use reborn_os.Vfs.Defs.{vfs_read_file}
use reborn_os.Vfs.Reading.{FileRead, vfs_read_file-FileRead}

abbrev name : List ℕ
name = b'h' ∷ b'i' ∷ []

-- The entry HI with ATTR_ARCHIVE, cluster 2 and size 3.
abbrev hi_entry : List ℕ
hi_entry =
    (b'H' ∷ b'I' ∷ replicate 9 b' ') ++ ((0x20 ∷ replicate 14 0) ++ (2 ∷ 0 ∷ 3 ∷ 0 ∷ 0 ∷ 0 ∷ []))

abbrev contents : Buf
contents o = get_or (7 ∷ 8 ∷ 9 ∷ []) o 0

abbrev small : Volume
small = record {
  partition_lba = 0;
  bytes_per_sector = 512;
  sectors_per_cluster = 1;
  cluster_size_bytes = 512;
  fat_start_sector = 1;
  root_dir_start_sector = 2;
  root_dir_sectors = 1;
  root_dir_entry_count = 16;
  first_data_sector = 3;
  fat_cache = λ c. if c == 2 then 0xFFFF else 0;
  fat_cache_entries = 256;
  disk = λ o.
      if leb 1536 o
      then contents (o - 1536)
      else if leb 1024 o
      then get_or hi_entry (o - 1024) 0
      else 0;
}

small-Mounted : Mounted small
small-Mounted = record {
  size = refl;
  nonzero = omega arith;
  sectors = omega arith;
  entries = omega arith;
}

abbrev file : FileRef
file = record { cluster = 2; size = 3 }

opens : fat16_open small name ≡ ok (some file)
unfolding fat16_open resolve_parent_dir open_in find_entry_in_dir read_directory find_loop entry_at
    parent_loop skip_slashes component names_match format_83 base_loop skip_to_dot ext_loop ext_part
    read_sectors
opens = refl

holds : Holds small contents 2 0 3
holds = more (omega arith) (omega arith, omega arith) (λ o l. ground arith) done

vfs_read_file-FileRead_example :
    FileRead contents 3 one_block boot_heap (vfs_read_file small boot_heap name)
vfs_read_file-FileRead_example =
    vfs_read_file-FileRead small contents name file boot_heap one_block opens small-Mounted holds
      boot_heap-IsHeap (omega arith) (omega arith)
