-- ===== src/Fat16/EntryWrite.antt =====
-- The end of fat16_write_file in kernel/src/fat16.c: the sector of the root directory and the FAT
-- are written back.
use reborn_os.Prelude.{ℕ, ◌+◌, ◌-◌, ◌*◌, ◌/◌, ◌≤◌, ◌<◌, ◌≡◌, refl, ap, ◌∙◌, ◌⊎◌, arith, inl, inr}
use reborn_os.Fat16.Name.{Buf}
use reborn_os.Fat16.Volume.{Volume, blit, write_sectors}
use reborn_os.Fat16.File.{write_entry, write_fat_cache_to_disk, fat_bytes}
use reborn_os.Fat16.Chain.{Mounted, Holds, done, more, address, address-linear}

-- Where the parts of a volume lie: the FAT, the root directory behind it, then the clusters.
pub record Layout (v : Volume) : Type 0 where
  pub mounted : Mounted v
  pub sector : v.bytes_per_sector ≡ 512
  pub fat_first : v.fat_start_sector + v.fat_cache_entries * 2 / 512 ≤ v.root_dir_start_sector
  pub root_next : v.root_dir_start_sector + v.root_dir_sectors ≤ v.first_data_sector
  pub root_size : v.root_dir_entry_count * 32 ≤ v.root_dir_sectors * 512

-- A chain is not touched by a write in front of the clusters.
pub Holds-agree :
    (v : Volume) (src d : Buf) {c from r : ℕ}
    → Mounted v
    → ((a : ℕ) → (v.partition_lba + v.first_data_sector) * 512 ≤ a → d a ≡ v.disk a)
    → Holds v src c from r
    → Holds (record v { disk = d }) src c from r
Holds-agree v src d m same done = done
Holds-agree v src d m same (more {c} p i b h) =
    more p i (λ o l. same (address v c + o) (omega (arith, address-linear v c m i.1)) ∙ b o l)
      (Holds-agree v src d m same h)

blit-outside : (buf src : Buf) (lo n a : ℕ) → (a < lo) ⊎ (lo + n ≤ a) → blit buf lo n src a ≡ buf a
blit-outside buf src lo n a (inl h) = ground arith
blit-outside buf src lo n a (inr h) = ground arith

pub blit-inside : (buf src : Buf) (lo n k : ℕ) → k < n → blit buf lo n src (lo + k) ≡ src k
blit-inside buf src lo n k h = ground (arith, ap src {x = lo + k - lo} {y = k} (omega arith))

module _ (v : Volume) (y : Layout v) (root : Buf) (slot : ℕ)
    (inside : slot < v.root_dir_entry_count) where
  write_entry-fat : (x : ℕ) → (write_entry v root slot).fat_cache x ≡ v.fat_cache x
  unfolding write_entry write_fat_cache_to_disk write_sectors
  write_entry-fat x = refl

  pub write_entry-geometry :
      write_entry v root slot ≡ record v { disk = (write_entry v root slot).disk }
  unfolding write_entry write_fat_cache_to_disk write_sectors
  write_entry-geometry = refl

  root_bytes : Buf
  root_bytes o = root (slot / 16 * 512 + o)

  root_address : ℕ
  root_address = (v.partition_lba + (v.root_dir_start_sector + slot / 16)) * 512

  with_root : Buf
  with_root = blit v.disk root_address 512 root_bytes

  fat_address : ℕ
  fat_address = (v.partition_lba + v.fat_start_sector) * 512

  fat_size : ℕ
  fat_size = v.fat_cache_entries * 2 / 512 * 512

  -- The disk after the two writes.
  write_entry-disk :
      (write_entry v root slot).disk ≡ blit with_root fat_address fat_size (fat_bytes v.fat_cache)
  unfolding write_entry write_fat_cache_to_disk write_sectors with_root root_address root_bytes
      fat_address fat_size
  write_entry-disk = rw y.sector refl

  pub write_entry-data :
      (a : ℕ)
      → (v.partition_lba + v.first_data_sector) * 512 ≤ a
      → (write_entry v root slot).disk a ≡ v.disk a
  unfolding with_root root_address fat_address fat_size
  write_entry-data a h =
      ap (λ (d : Buf). d a) write_entry-disk
      ∙ blit-outside with_root (fat_bytes v.fat_cache) fat_address fat_size a
          (inr (omega (arith, h, y.fat_first, y.root_next)))
      ∙ blit-outside v.disk root_bytes root_address 512 a
          (inr (omega (arith, h, y.root_next, y.root_size, inside)))

  pub write_entry-slot :
      (k : ℕ)
      → k < 32
      → (write_entry v root slot).disk
          ((v.partition_lba + v.root_dir_start_sector) * 512 + (slot * 32 + k))
        ≡ root (slot * 32 + k)
  unfolding with_root root_address fat_address fat_size root_bytes
  write_entry-slot k l =
      let a = (v.partition_lba + v.root_dir_start_sector) * 512 + (slot * 32 + k) in
      let at : a ≡ root_address + (slot * 32 + k - slot / 16 * 512) = omega arith in
      let back : slot / 16 * 512 + (slot * 32 + k - slot / 16 * 512) ≡ slot * 32 + k =
        omega arith in
      ap (λ (d : Buf). d a) write_entry-disk
      ∙ blit-outside with_root (fat_bytes v.fat_cache) fat_address fat_size a
          (inr (omega (arith, y.fat_first)))
      ∙ ap with_root at
      ∙ blit-inside v.disk root_bytes root_address 512 (slot * 32 + k - slot / 16 * 512)
          (omega arith)
      ∙ ap root back
