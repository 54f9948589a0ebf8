-- ===== src/Fat16/File.antt =====
-- The calls of kernel/src/fat16.c on files: open, read, list a directory, write.
use reborn_os.Prelude.{
  ℕ, zero, suc, ◌+◌, ◌-◌, ◌*◌, ◌/◌, ◌%◌, ◌^◌, min, true, false, ◌||◌, ◌&&◌, Option, none, some,
  List, [], ◌++◌, ltb, leb, ◌==◌, if◌then◌else◌, length, put, u32, Outcome, ok, panic, ◌>>=◌,
}
use reborn_os.Fat16.Name.{Buf, format_83, names_match, entry_line}
use reborn_os.Fat16.Volume.{
  Volume, Fault, endless_chain, disk_full, root_full, in_chain, eoc_mark, fat_next_cluster,
  read_sectors, write_sectors, cluster_to_sector, fresh, blit,
}
use reborn_os.Fat16.Dir.{
  Entry, entry_at, entry_size, first_cluster, is_end, is_deleted, is_special, find_entry_in_dir,
  read_directory, resolve_parent_dir, resolve_directory, max_clusters,
}

-- `fat16_file_t`
pub record FileRef : Type 0 where
  pub cluster : ℕ
  pub size : ℕ

abbrev pub file_of : Option Entry → Option FileRef
file_of none = none
file_of (some d) = some (record { cluster = first_cluster d; size = d.file_size })

unfoldable pub open_in : Volume → Option (ℕ × List ℕ) → Outcome Fault (Option FileRef)
open_in v none = ok none
open_in v (some (dir, leaf)) = do
  found ← find_entry_in_dir v dir (format_83 leaf)
  ok (file_of found)

unfoldable pub fat16_open : Volume → List ℕ → Outcome Fault (Option FileRef)
fat16_open v path = do parent ← resolve_parent_dir v path; open_in v parent

-- The loop of fat16_read, with the rounds left: the bytes still to read, and the buffer.
unfoldable pub read_loop : ℕ → Volume → ℕ → ℕ → ℕ → Buf → Outcome Fault (ℕ × Buf)
read_loop zero v c remaining dst buf = panic endless_chain
read_loop (suc rounds) v c remaining dst buf = elim (ltb 0 remaining && in_chain c) [
  | false ↦ ok (remaining, buf)
  | true ↦
      let cluster_buf = read_sectors v (cluster_to_sector v c) v.sectors_per_cluster 0 fresh in
      let chunk = min v.cluster_size_bytes remaining in
      (do
        next ← fat_next_cluster v c
        read_loop rounds v next (remaining - chunk) (dst + chunk) (blit buf dst chunk cluster_buf))
]

-- The number of bytes copied, and the buffer. Each round reads at least one byte.
unfoldable pub fat16_read : Volume → FileRef → Buf → ℕ → Outcome Fault (ℕ × Buf)
fat16_read v file buf max_len = do
  (remaining, out) ←
      read_loop (min file.size max_len + 1) v file.cluster (min file.size max_len) 0 buf
  ok (min file.size max_len - remaining, out)

-- The loop of fat16_list_dir from entry `e` on: the lines that fit.
unfoldable pub list_loop : ℕ → ℕ → Buf → ℕ → List ℕ → List ℕ
list_loop zero e buf max_len written = written
list_loop (suc rounds) e buf max_len written =
    let d = entry_at buf e in
    let line = entry_line d.name in
    let skipped = list_loop rounds (e + 1) buf max_len written in
    let added = list_loop rounds (e + 1) buf max_len (written ++ line) in
    if is_end d
    then written
    else if is_deleted d || is_special d
    then skipped
    else if leb max_len (length written + length line)
    then written
    else added

-- The bytes written before the NUL; none for -1.
unfoldable pub list_in : Volume → ℕ → Option ℕ → Outcome Fault (Option (List ℕ))
list_in v max_len none = ok none
list_in v max_len (some dir) = do
  (buf, count) ← read_directory v dir
  ok (some (list_loop count 0 buf max_len []))

unfoldable pub fat16_list_dir : Volume → List ℕ → ℕ → Outcome Fault (Option (List ℕ))
fat16_list_dir v path max_len = do dir ← resolve_directory v path; list_in v max_len dir

-- alloc_cluster: the first free cluster from `c` on.
unfoldable pub alloc_loop : ℕ → ℕ → (ℕ → ℕ) → Outcome Fault ℕ
alloc_loop zero c fat = panic disk_full
alloc_loop (suc rounds) c fat =
    let rest = alloc_loop rounds (c + 1) fat in if fat c == 0 then ok c else rest

unfoldable pub alloc_cluster : Volume → Outcome Fault ℕ
alloc_cluster v = alloc_loop (v.fat_cache_entries - 2) 2 v.fat_cache

-- write_fat_cache_to_disk: two bytes for each entry.
abbrev pub fat_bytes : (ℕ → ℕ) → Buf
fat_bytes fat o = if o % 2 == 0 then fat (o / 2) % 256 else fat (o / 2) / 256

unfoldable pub write_fat_cache_to_disk : Volume → Volume
write_fat_cache_to_disk v =
    write_sectors v v.fat_start_sector (v.fat_cache_entries * 2 / v.bytes_per_sector)
      (fat_bytes v.fat_cache)

-- What the search of fat16_write_file finds in the root directory.
pub record Slots : Type 0 where
  pub existing : Option ℕ
  pub free : Option ℕ

abbrev pub or_else : Option ℕ → ℕ → Option ℕ
or_else none e = some e
or_else (some i) e = some i

-- The loop of that search from entry `e` on, with the free slot found so far.
unfoldable pub slot_loop : ℕ → ℕ → Buf → Buf → Option ℕ → Slots
slot_loop zero e root want free = record { existing = none; free = free }
slot_loop (suc rounds) e root want free =
    let d = entry_at root e in
    let free' = if is_deleted d then or_else free e else free in
    let rest = slot_loop rounds (e + 1) root want free' in
    if is_end d
    then record { existing = none; free = or_else free e }
    else if is_deleted d || is_special d
    then rest
    else if names_match 11 0 d.name want
    then record { existing = some e; free = free }
    else rest

-- The slot that is written: the existing entry's, or the free one.
abbrev pub slot_of : Slots → Outcome Fault ℕ
slot_of s = elim s.existing [
  | some e ↦ ok e
  | none ↦ elim s.free [ some e ↦ ok e | none ↦ panic root_full ]
]

-- The loop that frees a chain. Each round clears an entry, so it ends.
unfoldable pub free_chain : ℕ → ℕ → (ℕ → ℕ) → Outcome Fault (ℕ → ℕ)
free_chain zero c fat = panic endless_chain
free_chain (suc rounds) c fat = elim (in_chain c) [
  | true ↦ free_chain rounds (fat c) (put fat c 0)
  | false ↦ ok fat
]

abbrev pub free_old : Buf → Option ℕ → (ℕ → ℕ) → Outcome Fault (ℕ → ℕ)
free_old root none fat = ok fat
free_old root (some e) fat = free_chain max_clusters (first_cluster (entry_at root e)) fat

-- Cluster `c` is taken, and linked behind `prev` if there is one.
abbrev pub link_cluster : (ℕ → ℕ) → ℕ → ℕ → ℕ → ℕ
link_cluster fat prev c =
    let fat' = put fat c eoc_mark in if prev == 0 then fat' else put fat' prev c

-- The cluster buffer: the next bytes of the file, then zeros.
abbrev pub chunk_of : Volume → Buf → ℕ → ℕ → Buf
chunk_of v src from remaining =
    blit fresh 0 (min v.cluster_size_bytes remaining) (λ o. src (from + o))

-- The loop that writes the clusters, `from` bytes into the file: the first cluster and the volume.
unfoldable pub write_loop : ℕ → ℕ → ℕ → Buf → ℕ → ℕ → Volume → Outcome Fault (ℕ × Volume)
write_loop zero first prev src from remaining v = ok (first, v)
write_loop (suc rounds) first prev src from remaining v = do
  c ← alloc_cluster v
  let chunk = min v.cluster_size_bytes remaining
  let linked = record v { fat_cache = link_cluster v.fat_cache prev c }
  let written =
      write_sectors linked (cluster_to_sector v c) v.sectors_per_cluster
        (chunk_of v src from remaining)
  write_loop rounds (if prev == 0 then c else first) c src (from + chunk) (remaining - chunk)
      written

-- The bytes of the new entry: the name, ATTR_ARCHIVE, the first cluster and the size.
abbrev pub new_entry : Buf → ℕ → ℕ → Buf
new_entry want first size o =
    if ltb o 11
    then want o
    else if o == 11
    then 0x20
    else if o == 20
    then (first / 65536) % 256
    else if o == 21
    then first / 16777216
    else if o == 26
    then first % 256
    else if o == 27
    then (first / 256) % 256
    else if o == 28
    then size % 256
    else if o == 29
    then (size / 256) % 256
    else if o == 30
    then (size / 65536) % 256
    else if o == 31
    then size / 16777216
    else 0

abbrev pub clusters_for : Volume → ℕ → ℕ
clusters_for v size =
    if size == 0
    then 0
    else u32 (u32 (size + v.cluster_size_bytes) + 2 ^ 32 - 1) / v.cluster_size_bytes

-- The sector of the root directory that holds `slot` is written back, then the FAT.
unfoldable pub write_entry : Volume → Buf → ℕ → Volume
write_entry v root slot =
    let sector = slot / (v.bytes_per_sector / entry_size) in
    write_fat_cache_to_disk (
      write_sectors v (v.root_dir_start_sector + sector) 1
        (λ o. root (sector * v.bytes_per_sector + o)))

unfoldable pub fat16_write_file : Volume → List ℕ → Buf → ℕ → Outcome Fault Volume
fat16_write_file v name src size = do
  let want = format_83 name
  let root = read_sectors v v.root_dir_start_sector v.root_dir_sectors 0 fresh
  let slots = slot_loop v.root_dir_entry_count 0 root want none
  slot ← slot_of slots
  fat ← free_old root slots.existing v.fat_cache
  (first, w) ← write_loop (clusters_for v size) 0 0 src 0 size (record v { fat_cache = fat })
  ok (write_entry w (blit root (slot * entry_size) entry_size (new_entry want first size)) slot)
