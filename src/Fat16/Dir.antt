-- ===== src/Fat16/Dir.antt =====
-- Directories and paths in kernel/src/fat16.c: cluster chains, the search for an entry, and the
-- resolution of a path.
use reborn_os.Prelude.{
  ℕ, zero, suc, ◌+◌, ◌*◌, ◌/◌, ◌%◌, Bool, true, false, ◌||◌, Option, none, some, List, [], ◌∷◌,
  ◌==◌, if◌then◌else◌, length, Outcome, ok, panic, ◌>>=◌,
}
use reborn_os.Fat16.Name.{Buf, format_83, names_match}
use reborn_os.Fat16.Volume.{
  Volume, Fault, endless_chain, in_chain, fat_next_cluster, read_sectors, cluster_to_sector, fresh,
  le16, le32,
}

abbrev pub entry_size : ℕ
entry_size = 32

-- The fields of a directory entry that the driver reads.
pub record Entry : Type 0 where
  pub name : Buf
  pub attr : ℕ
  pub cluster_hi : ℕ
  pub cluster_lo : ℕ
  pub file_size : ℕ

-- Entry `e` of a directory buffer, its fields at their offsets.
unfoldable pub entry_at : Buf → ℕ → Entry
entry_at buf e = record {
  name = λ i. buf (e * entry_size + i);
  attr = buf (e * entry_size + 11);
  cluster_hi = le16 buf (e * entry_size + 20);
  cluster_lo = le16 buf (e * entry_size + 26);
  file_size = le32 buf (e * entry_size + 28);
}

abbrev pub first_cluster : Entry → ℕ
first_cluster d = d.cluster_hi * 65536 + d.cluster_lo

-- `attr & ATTR_VOLUME_ID` and `attr & ATTR_DIRECTORY`
abbrev pub has_volume_id : ℕ → Bool
has_volume_id attr = (attr / 8) % 2 == 1

abbrev pub is_directory : ℕ → Bool
is_directory attr = (attr / 16) % 2 == 1

abbrev pub is_end : Entry → Bool
is_end d = d.name 0 == 0

abbrev pub is_deleted : Entry → Bool
is_deleted d = d.name 0 == 0xE5

-- A long-name fragment or the volume label.
abbrev pub is_special : Entry → Bool
is_special d = (d.attr == 0x0F) || has_volume_id d.attr

-- The loop of read_subdir_clusters that counts, with the rounds left. A chain that does not end
-- within them goes round a cycle, and the code does not return.
unfoldable pub count_chain : ℕ → Volume → ℕ → ℕ → Outcome Fault ℕ
count_chain zero v c count = panic endless_chain
count_chain (suc rounds) v c count = elim (in_chain c) [
  | true ↦ (do next ← fat_next_cluster v c; count_chain rounds v next (count + 1))
  | false ↦ ok count
]

-- The loop of read_subdir_clusters that reads.
unfoldable pub read_chain : ℕ → Volume → ℕ → ℕ → Buf → Outcome Fault Buf
read_chain zero v c dst buf = panic endless_chain
read_chain (suc rounds) v c dst buf = elim (in_chain c) [
  | true ↦ (do
    next ← fat_next_cluster v c
    read_chain rounds v next (dst + v.cluster_size_bytes)
        (read_sectors v (cluster_to_sector v c) v.sectors_per_cluster dst buf))
  | false ↦ ok buf
]

-- More rounds than there are clusters.
abbrev pub max_clusters : ℕ
max_clusters = 0x10000

-- The buffer and the number of entries; cluster 0 stands for the root directory.
unfoldable pub read_directory : Volume → ℕ → Outcome Fault (Buf × ℕ)
read_directory v dir =
    if dir == 0
    then ok
        (read_sectors v v.root_dir_start_sector v.root_dir_sectors 0 fresh, v.root_dir_entry_count)
    else (do
      count ← count_chain max_clusters v dir 0
      buf ← read_chain max_clusters v dir 0 fresh
      ok (buf, count * v.cluster_size_bytes / entry_size))

-- The loop of find_entry_in_dir from entry `e` on.
unfoldable pub find_loop : ℕ → ℕ → Buf → Buf → Option Entry
find_loop zero e buf want = none
find_loop (suc rounds) e buf want =
    let d = entry_at buf e in
    let rest = find_loop rounds (e + 1) buf want in
    if is_end d
    then none
    else if is_deleted d || is_special d
    then rest
    else if names_match 11 0 d.name want
    then some d
    else rest

unfoldable pub find_entry_in_dir : Volume → ℕ → Buf → Outcome Fault (Option Entry)
find_entry_in_dir v dir want = do
  (buf, count) ← read_directory v dir
  ok (find_loop count 0 buf want)

abbrev pub slash : ℕ
slash = 47

-- The loop that copies one component of a path, with the room left, and the rest of the path.
unfoldable pub component : ℕ → List ℕ → List ℕ × List ℕ
component zero p = ([], p)
component (suc room) [] = ([], [])
component (suc room) (c ∷ p) =
    let (name, rest) = component room p in if c == slash then ([], c ∷ p) else (c ∷ name, rest)

-- `while (*p == '/') p++;`
unfoldable pub skip_slashes : List ℕ → List ℕ
skip_slashes [] = []
skip_slashes (c ∷ p) = let rest = skip_slashes p in if c == slash then rest else c ∷ p

-- What a component is resolved to: the cluster of a subdirectory, if it is one.
abbrev pub subdir_of : Option Entry → Option ℕ
subdir_of none = none
subdir_of (some d) = if is_directory d.attr then some (first_cluster d) else none

unfoldable pub enter : Volume → ℕ → List ℕ → Outcome Fault (Option ℕ)
enter v dir name = do found ← find_entry_in_dir v dir (format_83 name); ok (subdir_of found)

-- The loop of resolve_parent_dir, with the rounds left: the directory and the last component.
unfoldable pub parent_loop : ℕ → Volume → ℕ → List ℕ → Outcome Fault (Option (ℕ × List ℕ))
parent_loop zero v dir p = panic endless_chain
parent_loop (suc rounds) v dir p =
    let (name, rest) = component 12 p in
    elim (skip_slashes rest) [
      | [] ↦ ok (some (dir, name))
      | c ∷ more ↦ (do
        sub ← enter v dir name
        elim sub [ none ↦ ok none | some d ↦ parent_loop rounds v d (c ∷ more) ])
    ]

-- Each round but the last takes at least one character.
unfoldable pub resolve_parent_dir : Volume → List ℕ → Outcome Fault (Option (ℕ × List ℕ))
resolve_parent_dir v path = parent_loop (length path + 1) v 0 path

-- The loop of resolve_directory.
unfoldable pub directory_loop : ℕ → Volume → ℕ → List ℕ → Outcome Fault (Option ℕ)
directory_loop zero v dir p = panic endless_chain
directory_loop (suc rounds) v dir p =
    let (name, rest) = component 12 p in
    elim name [
      | [] ↦ ok (some dir)
      | a ∷ as' ↦ (do
        sub ← enter v dir (a ∷ as')
        elim sub [
          | none ↦ ok none
          | some d ↦ elim (skip_slashes rest) [
            | [] ↦ ok (some d)
            | c ∷ more ↦ directory_loop rounds v d (c ∷ more)
          ]
        ])
    ]

unfoldable pub resolve_directory : Volume → List ℕ → Outcome Fault (Option ℕ)
resolve_directory v [] = ok (some 0)
resolve_directory v (c ∷ path) = directory_loop (length path + 2) v 0 (c ∷ path)
