-- ===== src/Keyboard/Defs.antt =====
-- The ring buffer and the functions of kernel/src/keyboard.c.
use reborn_os.Prelude.{
  ℕ, ◌+◌, ◌/◌, ◌%◌, Option, none, some, List, [], ◌∷◌, ltb, ◌==◌, if◌then◌else◌, put, get_or,
  length,
}

abbrev pub buffer_size : ℕ
buffer_size = 64

-- `scancode_to_ascii`, row by row.
abbrev pub first_row : List ℕ → List ℕ
first_row rest =
    0 ∷ 0 ∷ b'1' ∷ b'2' ∷ b'3' ∷ b'4' ∷ b'5' ∷ b'6' ∷ b'7' ∷ b'8' ∷ b'9' ∷ b'0' ∷ b'-' ∷ b'=' ∷ 8
    ∷ rest

abbrev pub second_row : List ℕ → List ℕ
second_row rest =
    9 ∷ b'q' ∷ b'w' ∷ b'e' ∷ b'r' ∷ b't' ∷ b'y' ∷ b'u' ∷ b'i' ∷ b'o' ∷ b'p' ∷ 91 ∷ 93 ∷ 10 ∷ rest

abbrev pub third_row : List ℕ → List ℕ
third_row rest =
    0 ∷ b'a' ∷ b's' ∷ b'd' ∷ b'f' ∷ b'g' ∷ b'h' ∷ b'j' ∷ b'k' ∷ b'l' ∷ 59 ∷ 39 ∷ 96 ∷ rest

abbrev pub fourth_row : List ℕ
fourth_row =
    0 ∷ 92 ∷ b'z' ∷ b'x' ∷ b'c' ∷ b'v' ∷ b'b' ∷ b'n' ∷ b'm' ∷ 44 ∷ 46 ∷ 47 ∷ 0 ∷ 42 ∷ 0 ∷ 32 ∷ []

abbrev pub scancode_to_ascii : List ℕ
scancode_to_ascii = first_row (second_row (third_row fourth_row))

-- The static variables.
pub record Keyboard : Type 0 where
  pub buffer : ℕ → ℕ
  pub buf_head : ℕ
  pub buf_tail : ℕ

unfoldable pub buffer_push : ℕ → Keyboard → Keyboard
buffer_push c k =
    let next = (k.buf_head + 1) % buffer_size in
    if next == k.buf_tail
    then k
    else record k { buffer = put k.buffer k.buf_head c; buf_head = next }

-- The handler, once it has read the scancode.
unfoldable pub keyboard_irq_handler : ℕ → Keyboard → Keyboard
keyboard_irq_handler scancode k =
    let c = get_or scancode_to_ascii scancode 0 in
    if (scancode / 128) % 2 == 1
    then k
    else if ltb scancode (length scancode_to_ascii)
    then (if c == 0 then k else buffer_push c k)
    else k

-- The next character; none for -1.
unfoldable pub keyboard_read_char : Keyboard → Option ℕ × Keyboard
keyboard_read_char k =
    if k.buf_tail == k.buf_head
    then (none, k)
    else (some (k.buffer k.buf_tail), record k { buf_tail = (k.buf_tail + 1) % buffer_size })

unfoldable pub keyboard_inject_char : ℕ → Keyboard → Keyboard
keyboard_inject_char c k = buffer_push c k
