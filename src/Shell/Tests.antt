-- ===== src/Shell/Tests.antt =====
-- Lines typed at the shell of userland/shell.c.
use reborn_os.Prelude.{ℕ, ◌≡◌, refl, some, List, [], ◌∷◌, arith}
use reborn_os.Shell.Defs.{
  skip_spaces, split_word, token_loop, tokenize, append_loop, join_loop, join_words, streq, has_dot,
  exec_name, write_file, run, command_of, interpret, line_loop, read_line,
}
use reborn_os.Shell.Tokens.{tokenize-join_words}

abbrev hi : List ℕ
hi = b'h' ∷ b'i' ∷ []

abbrev you : List ℕ
you = b'y' ∷ b'o' ∷ b'u' ∷ []

tokenize-join_words_example : tokenize (join_words (hi ∷ you ∷ [])) ≡ hi ∷ you ∷ []
tokenize-join_words_example =
    tokenize-join_words hi (you ∷ [])
      (
        (λ e. cc),
        ((λ e. omega arith), ((λ e. omega arith), tt)),
        ((λ e. cc), ((λ e. omega arith), ((λ e. omega arith), ((λ e. omega arith), tt))), tt),
      )
      (omega arith) (omega arith)

-- "hi  you" runs hi.elf.
ran :
    interpret (b'h' ∷ b'i' ∷ b' ' ∷ b' ' ∷ you)
    ≡ run ((b'h' ∷ b'i' ∷ b'.' ∷ b'e' ∷ b'l' ∷ b'f' ∷ []) ∷ you ∷ [])
unfolding interpret command_of tokenize token_loop skip_spaces split_word streq exec_name has_dot
ran = refl

-- "write a hi you"
written :
    interpret (b'w' ∷ b'r' ∷ b'i' ∷ b't' ∷ b'e' ∷ b' ' ∷ b'a' ∷ b' ' ∷ b'h' ∷ b'i' ∷ b' ' ∷ you)
    ≡ write_file (b'a' ∷ []) (b'h' ∷ b'i' ∷ b' ' ∷ you)
unfolding interpret command_of tokenize token_loop skip_spaces split_word streq join_words join_loop
    append_loop
written = refl

-- A key that is typed and erased.
erased : read_line (b'x' ∷ 8 ∷ b'h' ∷ b'i' ∷ 10 ∷ b'z' ∷ []) ≡ some (hi, b'z' ∷ [])
unfolding read_line line_loop
erased = refl
