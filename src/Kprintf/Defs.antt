-- ===== src/Kprintf/Defs.antt =====
-- The functions of kernel/src/kprintf.c. The serial port is the list of the characters that were
-- written to it; a string is the list of its characters without the NUL.
use reborn_os.Prelude.{
  ℕ, zero, suc, ◌+◌, ◌-◌, ◌/◌, ◌%◌, ◌^◌, Bool, true, false, Option, none, some, List, [], ◌∷◌, ◌++◌,
  ltb, ◌==◌, if◌then◌else◌,
}

-- An entry of the string of digits.
unfoldable pub digit_of : Bool → ℕ → ℕ
digit_of uppercase d = if ltb d 10 then 48 + d else (if uppercase then 55 + d else 87 + d)

-- sizeof(buf)
abbrev pub buf_size : ℕ
buf_size = 32

-- The first loop of print_unsigned, with room for `room` more digits. The second loop reads the
-- buffer backwards, so the digit that was stored last stands first.
unfoldable pub digit_loop : ℕ → ℕ → ℕ → Bool → List ℕ → List ℕ
digit_loop zero v base uppercase buf = buf
digit_loop (suc room) v base uppercase buf =
    let rest = digit_loop room (v / base) base uppercase (digit_of uppercase (v % base) ∷ buf) in
    if v == 0 then buf else rest

-- What print_unsigned writes.
unfoldable pub print_unsigned : ℕ → ℕ → Bool → List ℕ
print_unsigned v base uppercase =
    if v == 0 then 48 ∷ [] else digit_loop buf_size v base uppercase []

-- What print_signed writes for an int64_t with the bits `v`; the negation wraps.
unfoldable pub print_signed : ℕ → List ℕ
print_signed v =
    if ltb v (2 ^ 63)
    then print_unsigned v 10 false
    else 45 ∷ print_unsigned ((2 ^ 64 - v) % 2 ^ 64) 10 false

-- An argument: a 64-bit slot, or a string that may be NULL.
pub data Arg : Type 0 where
  word : ℕ → Arg
  text : Option (List ℕ) → Arg

-- Where the loop of kvprintf stands: between conversions, after `%`, or after `%l`.
pub data Place : Type 0 where
  plain percent long : Place

-- va_arg of an `int`, as an int64_t, and of an `unsigned int`.
abbrev pub as_int : ℕ → ℕ
as_int v = let low = v % 2 ^ 32 in if ltb low (2 ^ 31) then low else low + 2 ^ 64 - 2 ^ 32

abbrev pub as_unsigned : ℕ → ℕ
as_unsigned v = v % 2 ^ 32

-- "(null)"
abbrev pub null_text : List ℕ
null_text = 40 ∷ 110 ∷ 117 ∷ 108 ∷ 108 ∷ 41 ∷ []

abbrev pub string_or_null : Option (List ℕ) → List ℕ
string_or_null none = null_text
string_or_null (some s) = s

-- The next argument, which must be there and of the kind that is read.
abbrev pub with_word : (ℕ → List ℕ) → List Arg → Option (List ℕ × List Arg)
with_word show [] = none
with_word show (text s ∷ args) = none
with_word show (word v ∷ args) = some (show v, args)

abbrev pub with_text : List Arg → Option (List ℕ × List Arg)
with_text [] = none
with_text (word v ∷ args) = none
with_text (text s ∷ args) = some (string_or_null s, args)

-- The cases of the switch of kvprintf, and the letter that selects each.
pub data Case : Type 0 where
  string_case char_case signed_case unsigned_case hex_case pointer_case percent_case : Case
  other_case : ℕ → Case

unfoldable pub case_of : ℕ → Case
case_of c =
    if c == 115
    then string_case
    else if c == 99
    then char_case
    else if c == 100
    then signed_case
    else if c == 117
    then unsigned_case
    else if c == 120
    then hex_case
    else if c == 112
    then pointer_case
    else if c == 37
    then percent_case
    else other_case c

-- What the switch writes, and the arguments that are left.
unfoldable pub conversion : Bool → Case → List Arg → Option (List ℕ × List Arg)
conversion is_long string_case args = with_text args
conversion is_long char_case args = with_word (λ v. v % 256 ∷ []) args
conversion is_long signed_case args =
    with_word (λ v. print_signed (if is_long then v else as_int v)) args
conversion is_long unsigned_case args =
    with_word (λ v. print_unsigned (if is_long then v else as_unsigned v) 10 false) args
conversion is_long hex_case args =
    with_word (λ v. print_unsigned (if is_long then v else as_unsigned v) 16 false) args
conversion is_long pointer_case args = with_word (λ v. 48 ∷ 120 ∷ print_unsigned v 16 false) args
conversion is_long percent_case args = some (37 ∷ [], args)
conversion is_long (other_case c) args = some (37 ∷ c ∷ [], args)

-- The loop over the format; none if an argument is missing or of the wrong kind, which C leaves
-- undefined. A format that ends after `%` or `%l` stops there.
unfoldable pub format_loop : Place → List ℕ → List Arg → List ℕ → Option (List ℕ)
format_loop place [] args out = some out
format_loop plain (c ∷ fmt) args out =
    let literal = format_loop plain fmt args (out ++ (c ∷ [])) in
    let directive = format_loop percent fmt args out in if c == 37 then directive else literal
format_loop percent (c ∷ fmt) args out =
    let longer = format_loop long fmt args out in
    if c == 108 then longer else elim (conversion false (case_of c) args) [
      | none ↦ none
      | some (written, left) ↦ format_loop plain fmt left (out ++ written)
    ]
format_loop long (c ∷ fmt) args out = elim (conversion true (case_of c) args) [
  | none ↦ none
  | some (written, left) ↦ format_loop plain fmt left (out ++ written)
]

-- The text that kprintf writes.
unfoldable pub kvprintf : List ℕ → List Arg → Option (List ℕ)
kvprintf fmt args = format_loop plain fmt args []
