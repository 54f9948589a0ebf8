-- ===== src/Fat16/WriteFile.antt =====
-- fat16_write_file of kernel/src/fat16.c as a whole.
use reborn_os.Prelude.{ℕ, ◌+◌, ◌*◌, ◌≤◌, ◌<◌, ◌≡◌, List, Option, ok}
use reborn_os.Fat16.Name.{Buf, format_83}
use reborn_os.Fat16.Volume.{Volume}
use reborn_os.Fat16.File.{fat16_write_file, free_old, new_entry}
use reborn_os.Fat16.Chain.{Holds}
use reborn_os.Fat16.Clusters.{free_clusters}

-- The FAT after the old chain of the name is freed.
record Freed (root : Buf) (existing : Option ℕ) (v : Volume) : Type 0 where
  fat : ℕ → ℕ
  returns : free_old root existing v.fat_cache ≡ ok fat
  room : free_clusters v ≤ free_clusters (record v { fat_cache = fat })

-- What fat16_write_file leaves: the entry of the file in the slot, and its bytes in the chain that
-- the entry names.
pub record NewFile (v : Volume) (name : List ℕ) (src : Buf) (size slot : ℕ) : Type 0 where
  pub after : Volume
  pub first : ℕ
  pub returns : fat16_write_file v name src size ≡ ok after
  pub holds : Holds after src first 0 size
  pub entry :
      (k : ℕ)
      → k < 32
      → after.disk ((v.partition_lba + v.root_dir_start_sector) * 512 + (slot * 32 + k))
        ≡ new_entry (format_83 name) first size k
