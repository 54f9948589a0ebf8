-- ===== src/Fat16/Volume.antt =====
-- The mounted volume of kernel/src/fat16.c: its `fs` structure, the sectors on the disk, the cached
-- FAT, and fat16_init.
use reborn_os.Prelude.{
  ℕ, ◌+◌, ◌-◌, ◌*◌, ◌/◌, Bool, ◌||◌, ◌&&◌, not, ltb, leb, ◌==◌, if◌then◌else◌, u32, Outcome, ok,
  panic,
}
use reborn_os.Fat16.Name.{Buf}

abbrev pub sector_size : ℕ
sector_size = 512

abbrev pub eoc_min : ℕ
eoc_min = 0xFFF8

abbrev pub eoc_mark : ℕ
eoc_mark = 0xFFFF

-- Where a call ends in panic(), or never ends.
pub data Fault : Type 0 where
  no_signature no_volume bad_partition chain_off_end disk_full root_full endless_chain : Fault

-- `fs`, and the disk under it by byte address.
pub record Volume : Type 0 where
  pub partition_lba : ℕ
  pub bytes_per_sector : ℕ
  pub sectors_per_cluster : ℕ
  pub cluster_size_bytes : ℕ
  pub fat_start_sector : ℕ
  pub root_dir_start_sector : ℕ
  pub root_dir_sectors : ℕ
  pub root_dir_entry_count : ℕ
  pub first_data_sector : ℕ
  pub fat_cache : ℕ → ℕ
  pub fat_cache_entries : ℕ
  pub disk : Buf

-- Bytes `lo` up to `lo + n` of `buf` replaced by those of `src`.
abbrev pub blit : Buf → ℕ → ℕ → Buf → Buf
blit buf lo n src o = if leb lo o && ltb o (lo + n) then src (o - lo) else buf o

-- A buffer from kmalloc, before it is filled.
abbrev pub fresh : Buf
fresh _ = 0

abbrev pub byte_address : Volume → ℕ → ℕ
byte_address v lba = (v.partition_lba + lba) * sector_size

-- read_sectors into `buf` at offset `dst`.
unfoldable pub read_sectors : Volume → ℕ → ℕ → ℕ → Buf → Buf
read_sectors v lba count dst buf =
    blit buf dst (count * sector_size) (λ o. v.disk (byte_address v lba + o))

-- write_sectors from `src`.
unfoldable pub write_sectors : Volume → ℕ → ℕ → Buf → Volume
write_sectors v lba count src = record v {
  disk = blit v.disk (byte_address v lba) (count * sector_size) src;
}

abbrev pub cluster_to_sector : Volume → ℕ → ℕ
cluster_to_sector v c = u32 (v.first_data_sector + u32 ((c - 2) * v.sectors_per_cluster))

unfoldable pub fat_next_cluster : Volume → ℕ → Outcome Fault ℕ
fat_next_cluster v c = if leb v.fat_cache_entries c then panic chain_off_end else ok (v.fat_cache c)

-- `c >= 2 && c < FAT16_EOC_MIN`
abbrev pub in_chain : ℕ → Bool
in_chain c = leb 2 c && ltb c eoc_min

-- Little-endian fields of a buffer.
abbrev pub le16 : Buf → ℕ → ℕ
le16 b o = b o + 256 * b (o + 1)

abbrev pub le32 : Buf → ℕ → ℕ
le32 b o = b o + 256 * b (o + 1) + 65536 * b (o + 2) + 16777216 * b (o + 3)

-- The BPB fields at their offsets in the boot sector.
abbrev pub bpb_bytes_per_sector : Buf → ℕ
bpb_bytes_per_sector b = le16 b 11

abbrev pub bpb_sectors_per_cluster : Buf → ℕ
bpb_sectors_per_cluster b = b 13

abbrev pub bpb_reserved_sectors : Buf → ℕ
bpb_reserved_sectors b = le16 b 14

abbrev pub bpb_num_fats : Buf → ℕ
bpb_num_fats b = b 16

abbrev pub bpb_root_entries : Buf → ℕ
bpb_root_entries b = le16 b 17

abbrev pub bpb_fat_size : Buf → ℕ
bpb_fat_size b = le16 b 22

unfoldable pub looks_like_fat16_bpb : Buf → Bool
looks_like_fat16_bpb b =
    (bpb_bytes_per_sector b == sector_size)
    && (not (bpb_sectors_per_cluster b == 0)
        && (not (bpb_num_fats b == 0)
            && (not (bpb_fat_size b == 0) && not (bpb_root_entries b == 0))))

-- The fields that fat16_init computes from the boot sector, then the FAT cache.
unfoldable pub mount : Buf → ℕ → Buf → Volume
mount disk partition b = record {
  partition_lba = partition;
  bytes_per_sector = bpb_bytes_per_sector b;
  sectors_per_cluster = bpb_sectors_per_cluster b;
  cluster_size_bytes = bpb_bytes_per_sector b * bpb_sectors_per_cluster b;
  fat_start_sector = bpb_reserved_sectors b;
  root_dir_start_sector = root_start;
  root_dir_entry_count = bpb_root_entries b;
  root_dir_sectors = root_sectors;
  first_data_sector = root_start + root_sectors;
  fat_cache =
      λ c. le16 (λ o. disk ((partition + bpb_reserved_sectors b) * sector_size + o)) (2 * c);
  fat_cache_entries = bpb_fat_size b * bpb_bytes_per_sector b / 2;
  disk = disk;
}
  where
    root_start : ℕ
    root_start = bpb_reserved_sectors b + bpb_num_fats b * bpb_fat_size b

    root_sectors : ℕ
    root_sectors = (bpb_root_entries b * 32 + bpb_bytes_per_sector b - 1) / bpb_bytes_per_sector b

-- The first sector of the disk from byte address `a` on.
abbrev pub sector_at : Buf → ℕ → Buf
sector_at disk lba o = disk (lba * sector_size + o)

-- `fs` is zero at the start, so a superfloppy keeps partition 0.
unfoldable pub fat16_init : Buf → Outcome Fault Volume
fat16_init disk =
    let boot = sector_at disk 0 in
    let partition = le32 boot (0x1BE + 8) in
    if not (boot 510 == 0x55) || not (boot 511 == 0xAA)
    then panic no_signature
    else if looks_like_fat16_bpb boot
    then ok (mount disk 0 boot)
    else if partition == 0
    then panic no_volume
    else if looks_like_fat16_bpb (sector_at disk partition)
    then ok (mount disk partition (sector_at disk partition))
    else panic bad_partition
