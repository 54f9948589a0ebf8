-- ===== src/Shell/Defs.antt =====
-- The functions of userland/shell.c. A string is the list of its characters without the NUL; the
-- pointers of argv, which point into the line, are the strings that they point to.
use reborn_os.Prelude.{
  ℕ, zero, suc, ◌+◌, ◌-◌, Bool, true, false, Option, none, some, List, [], ◌∷◌, ◌++◌, length, ltb,
  ◌==◌, if◌then◌else◌,
}

abbrev pub line_max : ℕ
line_max = 128

abbrev pub max_args : ℕ
max_args = 16

abbrev pub iobuf_size : ℕ
iobuf_size = 512

abbrev pub space : ℕ
space = 32

unfoldable pub streq : List ℕ → List ℕ → Bool
streq [] [] = true
streq [] (d ∷ b) = false
streq (c ∷ a) [] = false
streq (c ∷ a) (d ∷ b) = let rest = streq a b in if c == d then rest else false

abbrev pub drop_last : List ℕ → List ℕ
drop_last [] = []
drop_last (c ∷ []) = []
drop_last (c ∷ d ∷ l) = c ∷ drop_last (d ∷ l)

-- The loop of read_line over the keys that are typed, with the line so far: the line and the keys
-- behind the newline, or none while it waits for more.
unfoldable pub line_loop : List ℕ → List ℕ → Option (List ℕ × List ℕ)
line_loop [] line = none
line_loop (c ∷ keys) line =
    let erased = line_loop keys (drop_last line) in
    let typed = line_loop keys (line ++ (c ∷ [])) in
    let full = line_loop keys line in
    if c == 10
    then some (line, keys)
    else if c == 8
    then erased
    else if ltb (length line) (line_max - 1)
    then typed
    else full

unfoldable pub read_line : List ℕ → Option (List ℕ × List ℕ)
read_line keys = line_loop keys []

-- The first inner loop of tokenize, and the second with the step over the space behind the word.
unfoldable pub skip_spaces : List ℕ → List ℕ
skip_spaces [] = []
skip_spaces (c ∷ p) = let rest = skip_spaces p in if c == space then rest else c ∷ p

unfoldable pub split_word : List ℕ → List ℕ × List ℕ
split_word [] = ([], [])
split_word (c ∷ p) =
    let (word, rest) = split_word p in if c == space then ([], p) else (c ∷ word, rest)

-- The outer loop, with room for `room` more words.
unfoldable pub token_loop : ℕ → List ℕ → List (List ℕ)
token_loop zero p = []
token_loop (suc room) p = elim (skip_spaces p) [
  | [] ↦ []
  | c ∷ q ↦ let (word, rest) = split_word (c ∷ q) in word ∷ token_loop room rest
]

unfoldable pub tokenize : List ℕ → List (List ℕ)
tokenize line = token_loop max_args line

-- The inner loop of `write`: characters are added while there is room.
unfoldable pub append_loop : List ℕ → List ℕ → List ℕ
append_loop [] out = out
append_loop (c ∷ s) out =
    let rest = append_loop s (out ++ (c ∷ [])) in
    if ltb (length out) (iobuf_size - 1) then rest else out

-- The loop of `write` over argv[2..]; `first` is `i == 2`.
unfoldable pub join_loop : Bool → List (List ℕ) → List ℕ → List ℕ
join_loop first [] out = out
join_loop first (s ∷ argv) out =
    let rest = join_loop false argv (append_loop s (if first then out else out ++ (space ∷ []))) in
    if ltb (length out) (iobuf_size - 1) then rest else out

unfoldable pub join_words : List (List ℕ) → List ℕ
join_words argv = join_loop true argv []

unfoldable pub has_dot : List ℕ → Bool
has_dot [] = false
has_dot (c ∷ s) = let rest = has_dot s in if c == 46 then true else rest

abbrev pub first_chars : ℕ → List ℕ → List ℕ
first_chars zero s = []
first_chars (suc n) [] = []
first_chars (suc n) (c ∷ s) = c ∷ first_chars n s

-- The name that is run: `.elf` is added to a name without a dot.
unfoldable pub exec_name : List ℕ → List ℕ
exec_name name =
    if has_dot name
    then name
    else first_chars (line_max + 4 - 5) name ++ (46 ∷ 101 ∷ 108 ∷ 102 ∷ [])

-- What the shell does with a line: nothing, a builtin, a message, or a program to run.
pub data Command : Type 0 where
  nothing write_usage cat_usage : Command
  list_files read_file : List ℕ → Command
  write_file : (name contents : List ℕ) → Command
  run : List (List ℕ) → Command

abbrev pub list_command : List (List ℕ) → Command
list_command [] = list_files []
list_command (path ∷ more) = list_files path

abbrev pub cat_command : List (List ℕ) → Command
cat_command [] = cat_usage
cat_command (path ∷ more) = read_file path

abbrev pub write_command : List (List ℕ) → Command
write_command [] = write_usage
write_command (name ∷ words) = write_file name (join_words words)

unfoldable pub command_of : List (List ℕ) → Command
command_of [] = nothing
command_of (name ∷ args) =
    if streq name (108 ∷ 115 ∷ [])
    then list_command args
    else if streq name (99 ∷ 97 ∷ 116 ∷ [])
    then cat_command args
    else if streq name (119 ∷ 114 ∷ 105 ∷ 116 ∷ 101 ∷ [])
    then write_command args
    else run (exec_name name ∷ args)

-- One round of the loop of _start, once the line is read.
unfoldable pub interpret : List ℕ → Command
interpret line = command_of (tokenize line)
