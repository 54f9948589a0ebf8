-- ===== src/Fat16/Tests.antt =====
-- Runs of kernel/src/fat16.c on a small volume whose root directory holds HELLO.TXT.
use reborn_os.Prelude.{
  ltb, ◌%◌, ℕ, ◌-◌, ◌≡◌, refl, arith, List, [], ◌∷◌, leb, if◌then◌else◌, get_or, ok,
}
use reborn_os.Fat16.Name.{Buf}
use reborn_os.Fat16.NameLaws.{Is83}
use reborn_os.Fat16.Volume.{Volume, read_sectors, fresh}
use reborn_os.Fat16.Dir.{read_directory}
use reborn_os.Pmm.Valid.{count_free}
use reborn_os.Fat16.File.{write_loop, fat16_read}
use reborn_os.Fat16.Chain.{Mounted, Copied, fat16_read-Copied}
use reborn_os.Fat16.Clusters.{free_clusters}
use reborn_os.Fat16.FreeChain.{Cleared, free_chain-Cleared}
use reborn_os.Fat16.Dir.{max_clusters}
use reborn_os.Prelude.{◌==◌}
use reborn_os.Fat16.Write.{Stored, write_loop-Stored, fat16_read-write_loop}

abbrev hello : List ℕ
hello = b'h' ∷ b'e' ∷ b'l' ∷ b'l' ∷ b'o' ∷ []

abbrev txt : List ℕ
txt = b't' ∷ b'x' ∷ b't' ∷ []

hello-txt-Is83 : Is83 hello txt
hello-txt-Is83 = record {
  base_plain = (refl, (refl, (refl, (refl, (refl, tt)))));
  ext_plain = (refl, (refl, (refl, tt)));
  base_short = omega arith;
  ext_short = omega arith;
}

-- The entry HELLO.TXT with ATTR_ARCHIVE.
abbrev hello_entry : List ℕ
hello_entry = b'H' ∷ b'E' ∷ b'L' ∷ b'L' ∷ b'O' ∷ b' ' ∷ b' ' ∷ b' ' ∷ b'T' ∷ b'X' ∷ b'T' ∷ 0x20 ∷ []

-- One sector of each kind, the root directory in sector 2.
abbrev little : Volume
little = record {
  partition_lba = 0;
  bytes_per_sector = 512;
  sectors_per_cluster = 1;
  cluster_size_bytes = 512;
  fat_start_sector = 1;
  root_dir_start_sector = 2;
  root_dir_sectors = 1;
  root_dir_entry_count = 16;
  first_data_sector = 3;
  fat_cache = λ c. 0;
  fat_cache_entries = 256;
  disk = λ o. if leb 1024 o then get_or hello_entry (o - 1024) 0 else 0;
}

abbrev root : Buf
root = read_sectors little 2 1 0 fresh

root_read : read_directory little 0 ≡ ok (root, 16)
unfolding read_directory
root_read = refl

little-Mounted : Mounted little
little-Mounted = record {
  size = refl;
  nonzero = omega arith;
  sectors = omega arith;
  entries = omega arith;
}

enough : free_clusters little ≡ 254
unfolding count_free
enough = refl

-- 700 bytes, which take two clusters.
abbrev bytes : Buf
bytes o = o % 256

fat16_read-write_loop_example :
    (first : ℕ) × (w : Volume) × (out : Buf) × (write_loop 2 0 0 bytes 0 700 little ≡ ok (first, w))
    × (fat16_read w (record { cluster = first; size = 700 }) fresh 700 ≡ ok (700, out))
    × ((o : ℕ) → out o ≡ (if ltb o 700 then bytes o else 0))
fat16_read-write_loop_example =
    fat16_read-write_loop 2 bytes fresh 700 little little-Mounted (omega (arith, enough))
      (omega arith)

-- The volume with those bytes in it.
abbrev two_clusters : Stored bytes 700 little 2
two_clusters =
    write_loop-Stored 2 bytes 700 little little-Mounted (omega (arith, enough)) (omega arith)

abbrev written : Volume
written = record little { fat_cache = two_clusters.fat; disk = two_clusters.disk }

written-Mounted : Mounted written
written-Mounted = record {
  size = refl;
  nonzero = omega arith;
  sectors = omega arith;
  entries = omega arith;
}

-- A buffer of 600 bytes takes the first 600.
fat16_read-Copied_example :
    (out : Buf) × (fat16_read written
        (record { cluster = two_clusters.first; size = 700 })
        fresh
        600
      ≡ ok (600, out))
    × Copied bytes 0 600 fresh 0 out
fat16_read-Copied_example =
    fat16_read-Copied written bytes fresh (record { cluster = two_clusters.first; size = 700 }) 600
      written-Mounted two_clusters.holds

-- A FAT with the cycle of clusters 2 and 3.
abbrev cycle : ℕ → ℕ
cycle x = if x == 2 then 3 else if x == 3 then 2 else 0

free_chain-Cleared_example : Cleared 2 cycle max_clusters
free_chain-Cleared_example = free_chain-Cleared 2 cycle
