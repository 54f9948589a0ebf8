-- ===== src/Elf/Tests.antt =====
-- A run of kernel/src/elf_loader.c: two arguments in a page at 0x9000.
use reborn_os.Prelude.{ℕ, ◌-◌, ◌≡◌, refl, List, [], ◌∷◌, arith, ok}
use reborn_os.Elf.Defs.{Bytes, total_string_bytes, argv_loop, Blob, write_argv_blob, stack_top}
use reborn_os.Elf.Argv.{Passed, write_argv_blob-Passed}

abbrev two_args : List (List ℕ)
two_args = (b'l' ∷ b's' ∷ []) ∷ (b'a' ∷ []) ∷ []

abbrev zeros : Bytes
zeros o = 0

write_argv_blob-Passed_example :
    (r : Blob) × (write_argv_blob 0x9000 (stack_top - 4096) two_args zeros ≡ ok r)
    × Passed 0x9000 two_args zeros r
unfolding total_string_bytes
write_argv_blob-Passed_example =
    write_argv_blob-Passed 0x9000 two_args zeros (omega arith) (omega arith) (omega arith)

-- Five bytes of strings and three pointers take 32 bytes; the first pointer's low byte is 0xE0.
first_pointer : argv_loop two_args 0x9FE0 (stack_top - 32) 0x9FE8 zeros 0x9FE8 ≡ 0xE0
unfolding argv_loop
first_pointer = refl
