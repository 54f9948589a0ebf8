-- ===== src/Minilib/Tests.antt =====
-- Runs of common/src/minilib.c.
use reborn_os.Prelude.{ℕ, ◌+◌, ◌-◌, ◌%◌, ◌^◌, ◌≡◌, refl, some}
use reborn_os.Minilib.Defs.{memmove, memset, set_loop, strlen, len_loop, strcmp, up_loop, down_loop}
use reborn_os.Minilib.Copies.{copied, memmove-copied}

-- Each address holds its own last byte.
abbrev counting : ℕ → ℕ
counting a = a % 256

-- Ten bytes moved up by three: the ranges overlap.
memmove-copied_example : memmove counting 23 20 10 27 ≡ copied counting 23 20 10 27
memmove-copied_example = memmove-copied counting 23 20 10 27

moved_up : memmove counting 23 20 10 27 ≡ 24
unfolding memmove up_loop down_loop
moved_up = refl

length_of_text : strlen 300 counting 200 ≡ some 56
unfolding strlen len_loop
length_of_text = refl

-- 200 against 201, as an int of -1.
compared : strcmp 300 counting 200 201 ≡ some (2 ^ 32 + counting 200 - counting 201)
unfolding strcmp
compared = refl

filled : memset counting 7 0x1FF 3 9 ≡ 0xFF
unfolding memset set_loop
filled = refl
