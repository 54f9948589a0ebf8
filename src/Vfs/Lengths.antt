-- ===== src/Vfs/Lengths.antt =====
-- How many bytes the calls of kernel/src/vfs.c put into the buffer of their caller.
use reborn_os.Prelude.{
  ℕ, zero, suc, ◌+◌, ◌-◌, ◌≤◌, ◌<◌, ◌≡◌, ◌≢◌, ◌||◌, Option, none, some, List, [], ◌∷◌, ◌++◌, length,
  leb, min, arith, Bool-cases, inl, inr, Outcome, ok, panic, ◌>>=◌, >>=-rule, within,
}
use reborn_os.Fat16.Name.{Buf, entry_line}
use reborn_os.Fat16.Volume.{Volume, Fault}
use reborn_os.Fat16.Dir.{
  entry_at, is_end, is_deleted, is_special, resolve_directory, read_directory,
}
use reborn_os.Fat16.File.{
  FileRef, fat16_open, fat16_read, read_loop, list_loop, list_in, fat16_list_dir,
}
use reborn_os.Vfs.Defs.{VfsPanic, in_fat16, read_into, vfs_read_file_into, vfs_list_dir}

pub length-++ : (xs ys : List ℕ) → length (xs ++ ys) ≡ length xs + length ys
length-++ [] ys = omega arith
length-++ (x ∷ xs) ys = omega (arith, length-++ xs ys)

-- A listing that leaves room for its NUL, if there is any room.
abbrev pub Short : {E : Type 0} → ℕ → Outcome E (Option (List ℕ)) → Type 0
Short max_len (panic e) = Unit
Short max_len (ok none) = Unit
Short max_len (ok (some lines)) = max_len ≢ 0 → length lines < max_len

list_loop-lt :
    (n e : ℕ) (buf : Buf) (max_len : ℕ) (written : List ℕ)
    → length written < max_len
    → length (list_loop n e buf max_len written) < max_len
unfolding list_loop
list_loop-lt zero e buf max_len written h = h
list_loop-lt (suc n) e buf max_len written h =
    let d = entry_at buf e in
    let line = entry_line d.name in
    elim (Bool-cases (is_end d)) [
      | inl a ↦ rw a h
      | inr a ↦ elim (Bool-cases (is_deleted d || is_special d)) [
        | inl b ↦ rw (a, b) (list_loop-lt n (e + 1) buf max_len written h)
        | inr b ↦ elim (Bool-cases (leb max_len (length written + length line))) [
          | inl c ↦ rw (a, b, c) h
          | inr c ↦
              rw (a, b, c)
                (list_loop-lt n (e + 1) buf max_len (written ++ line)
                  (ground (arith, length-++ written line)))
        ]
      ]
    ]

list_in-Short : (v : Volume) (max_len : ℕ) (dir : Option ℕ) → Short max_len (list_in v max_len dir)
unfolding list_in
list_in-Short v max_len none = tt
list_in-Short v max_len (some dir) =
    >>=-rule (Short max_len) (read_directory v dir) (λ e. tt)
      λ (buf, count) read ne. list_loop-lt count 0 buf max_len [] (omega arith)

within-Short :
    (max_len : ℕ) (o : Outcome Fault (Option (List ℕ)))
    → Short max_len o
    → Short max_len (within in_fat16 o)
within-Short max_len (panic e) h = h
within-Short max_len (ok none) h = h
within-Short max_len (ok (some l)) h = h

pub vfs_list_dir-Short :
    (v : Volume) (path : List ℕ) (max_len : ℕ) → Short max_len (vfs_list_dir v path max_len)
unfolding vfs_list_dir fat16_list_dir
vfs_list_dir-Short v path max_len = within-Short max_len (fat16_list_dir v path max_len) (
    >>=-rule (Short max_len) (resolve_directory v path) (λ e. tt)
      λ dir found. list_in-Short v max_len dir)

-- A count of bytes that fit.
abbrev pub Fits : {E : Type 0} → ℕ → Outcome E (ℕ × Buf) → Type 0
Fits max_len (panic e) = Unit
Fits max_len (ok (n, b)) = n ≤ max_len

abbrev pub FitsSome : {E : Type 0} → ℕ → Outcome E (Option ℕ × Buf) → Type 0
FitsSome max_len (panic e) = Unit
FitsSome max_len (ok (none, b)) = Unit
FitsSome max_len (ok (some n, b)) = n ≤ max_len

fat16_read-Fits :
    (v : Volume) (file : FileRef) (buf : Buf) (max_len : ℕ)
    → Fits max_len (within in_fat16 (fat16_read v file buf max_len))
unfolding fat16_read
fat16_read-Fits v file buf max_len =
    elim_within (read_loop (min file.size max_len + 1) v file.cluster (min file.size max_len) 0 buf)
  where
    elim_within :
        (o : Outcome Fault (ℕ × Buf))
        → Fits max_len (
            within in_fat16 (o >>= λ (remaining, out). ok (min file.size max_len - remaining, out)))
    elim_within (panic e) = tt
    elim_within (ok (n, b)) = omega arith

read_into-FitsSome :
    (v : Volume) (buf : Buf) (max_len : ℕ) (file : Option FileRef)
    → FitsSome max_len (read_into v buf max_len file)
unfolding read_into
read_into-FitsSome v buf max_len none = tt
read_into-FitsSome v buf max_len (some file) =
    counted (within in_fat16 (fat16_read v file buf max_len)) (fat16_read-Fits v file buf max_len)
  where
    counted :
        (o : Outcome VfsPanic (ℕ × Buf))
        → Fits max_len o
        → FitsSome max_len (o >>= λ (read, bytes). ok (some read, bytes))
    counted (panic e) h = tt
    counted (ok (n, b)) h = h

pub vfs_read_file_into-FitsSome :
    (v : Volume) (path : List ℕ) (buf : Buf) (max_len : ℕ)
    → FitsSome max_len (vfs_read_file_into v path buf max_len)
unfolding vfs_read_file_into
vfs_read_file_into-FitsSome v path buf max_len =
    >>=-rule (FitsSome max_len) (within in_fat16 (fat16_open v path)) (λ e. tt)
      λ file opened. read_into-FitsSome v buf max_len file
