-- ===== src/Fat16/Name.antt =====
-- Short names in kernel/src/fat16.c: format_83, the line that fat16_list_dir prints for an entry,
-- and the comparison of two stored names.
use reborn_os.Prelude.{
  ℕ, zero, suc, ◌+◌, ◌-◌, Bool, true, false, ◌&&◌, List, [], ◌∷◌, ◌++◌, leb, ◌==◌, if◌then◌else◌,
  put,
}

-- Bytes by their offset.
abbrev pub Buf : Type 0
Buf = ℕ → ℕ

-- `if (c >= 'a' && c <= 'z') c = c - 'a' + 'A';`
abbrev pub upcase : ℕ → ℕ
upcase c = if leb b'a' c && leb c b'z' then c - b'a' + b'A' else c

-- The first loop of format_83, at output index `oi` with the room left: the buffer and the rest of
-- the string.
unfoldable pub base_loop : ℕ → ℕ → Buf → List ℕ → Buf × List ℕ
base_loop zero oi out p = (out, p)
base_loop (suc room) oi out [] = (out, [])
base_loop (suc room) oi out (c ∷ p) =
    let rest = base_loop room (oi + 1) (put out oi (upcase c)) p in
    if c == b'.' then (out, c ∷ p) else rest

-- `while (*p != '\0' && *p != '.') p++;`
unfoldable pub skip_to_dot : List ℕ → List ℕ
skip_to_dot [] = []
skip_to_dot (c ∷ p) = let rest = skip_to_dot p in if c == b'.' then c ∷ p else rest

-- The last loop of format_83.
unfoldable pub ext_loop : ℕ → ℕ → Buf → List ℕ → Buf
ext_loop zero ei out p = out
ext_loop (suc room) ei out [] = out
ext_loop (suc room) ei out (c ∷ p) = ext_loop room (ei + 1) (put out ei (upcase c)) p

abbrev pub spaces : Buf
spaces _ = b' '

unfoldable pub ext_part : Buf → List ℕ → Buf
ext_part out [] = out
ext_part out (c ∷ p) = ext_loop 3 8 out p

unfoldable pub format_83 : List ℕ → Buf
format_83 name = let (out, p) = base_loop 8 0 spaces name in ext_part out (skip_to_dot p)

-- `for (i = from; i < to && de->name[i] != ' '; i++) line[li++] = de->name[i];`
unfoldable pub until_space : ℕ → ℕ → Buf → List ℕ
until_space zero i name = []
until_space (suc rounds) i name =
    let rest = until_space rounds (i + 1) name in if name i == b' ' then [] else name i ∷ rest

-- One line of a listing.
unfoldable pub entry_line : Buf → List ℕ
entry_line name =
    until_space 8 0 name
    ++ ((if name 8 == b' ' then [] else b'.' ∷ until_space 3 8 name) ++ (10 ∷ []))

-- The loop that compares 11 bytes, from index `i` on.
unfoldable pub names_match : ℕ → ℕ → Buf → Buf → Bool
names_match zero i name want = true
names_match (suc rounds) i name want =
    let rest = names_match rounds (i + 1) name want in if name i == want i then rest else false
