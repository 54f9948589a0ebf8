-- ===== src/Kprintf/Text.antt =====
-- What kprintf is meant to write: the text of a format and its arguments, letter by letter.
use reborn_os.Prelude.{
  ℕ, ◌-◌, ◌%◌, ◌^◌, ◌≤◌, ◌<◌, ◌≡◌, ◌≢◌, Bool, true, false, none, some, List, [], ◌∷◌, ◌++◌, ◌==◌,
  ◌||◌, if◌then◌else◌,
}
use reborn_os.Kprintf.Defs.{Arg, word, text, Place, plain, percent, long}
use reborn_os.Kprintf.Digits.{Numeral}

-- The number of an unsigned argument: 64 bits of it after `l`, else 32.
abbrev pub unsigned_value : Bool → ℕ → ℕ
unsigned_value is_long v = if is_long then v else v % 2 ^ 32

-- The text of a signed argument, in two's complement of 64 bits after `l`, else of 32.
pub data Signed : Bool → ℕ → List ℕ → Type 0 where
  long_positive : {v : ℕ} {s : List ℕ} → v < 2 ^ 63 → Numeral 10 v s → Signed true v s
  long_negative :
      {v : ℕ} {s : List ℕ} → 2 ^ 63 ≤ v → Numeral 10 (2 ^ 64 - v) s → Signed true v (45 ∷ s)
  positive :
      {v : ℕ} {s : List ℕ} → v % 2 ^ 32 < 2 ^ 31 → Numeral 10 (v % 2 ^ 32) s → Signed false v s
  negative :
      {v : ℕ} {s : List ℕ}
      → 2 ^ 31 ≤ v % 2 ^ 32
      → Numeral 10 (2 ^ 32 - v % 2 ^ 32) s
      → Signed false v (45 ∷ s)

-- What a conversion with a letter writes, and the arguments that it leaves.
pub data Converts (is_long : Bool) : ℕ → List Arg → List ℕ → List Arg → Type 0 where
  -- %s
  string : {s : List ℕ} {args : List Arg} → Converts is_long 115 (text (some s) ∷ args) s args
  -- %s of NULL: "(null)"
  null :
      {args : List Arg}
      → Converts is_long 115 (text none ∷ args) (40 ∷ 110 ∷ 117 ∷ 108 ∷ 108 ∷ 41 ∷ []) args
  -- %c
  character : {v : ℕ} {args : List Arg} → Converts is_long 99 (word v ∷ args) (v % 256 ∷ []) args
  -- %d
  signed :
      {v : ℕ} {s : List ℕ} {args : List Arg}
      → Signed is_long v s
      → Converts is_long 100 (word v ∷ args) s args
  -- %u
  decimal :
      {v : ℕ} {s : List ℕ} {args : List Arg}
      → Numeral 10 (unsigned_value is_long v) s
      → Converts is_long 117 (word v ∷ args) s args
  -- %x
  hex :
      {v : ℕ} {s : List ℕ} {args : List Arg}
      → Numeral 16 (unsigned_value is_long v) s
      → Converts is_long 120 (word v ∷ args) s args
  -- %p, with 0x in front
  pointer :
      {v : ℕ} {s : List ℕ} {args : List Arg}
      → Numeral 16 v s
      → Converts is_long 112 (word v ∷ args) (48 ∷ 120 ∷ s) args
  -- %%
  sign : {args : List Arg} → Converts is_long 37 args (37 ∷ []) args
  -- any other letter, as it stands
  unknown :
      {c : ℕ} {args : List Arg}
      → (c ≢ 115) × (c ≢ 99) × (c ≢ 100) × (c ≢ 117) × (c ≢ 120) × (c ≢ 112) × (c ≢ 37)
      → Converts is_long c args (37 ∷ c ∷ []) args

-- The text of a format. A format that ends after `%` or `%l` stops there.
pub data Printed : List ℕ → List Arg → List ℕ → Type 0 where
  finished : {args : List Arg} → Printed [] args []
  ends_in_sign : {args : List Arg} → Printed (37 ∷ []) args []
  ends_in_long : {args : List Arg} → Printed (37 ∷ 108 ∷ []) args []
  literal :
      {c : ℕ} {fmt : List ℕ} {args : List Arg} {s : List ℕ}
      → c ≢ 37
      → Printed fmt args s
      → Printed (c ∷ fmt) args (c ∷ s)
  short :
      {c : ℕ} {fmt : List ℕ} {args left : List Arg} {piece s : List ℕ}
      → c ≢ 108
      → Converts false c args piece left
      → Printed fmt left s
      → Printed (37 ∷ c ∷ fmt) args (piece ++ s)
  longer :
      {c : ℕ} {fmt : List ℕ} {args left : List Arg} {piece s : List ℕ}
      → Converts true c args piece left
      → Printed fmt left s
      → Printed (37 ∷ 108 ∷ c ∷ fmt) args (piece ++ s)

-- What a conversion reads.
pub data Kind : Type 0 where
  number string : Kind

-- The kinds that a conversion with a letter puts in front of those of the rest of the format: a string
-- for `s`, a number for `c`, `d`, `u`, `x` and `p`.
abbrev pub reads : ℕ → List Kind → List Kind
reads c kinds =
    if c == 115
    then string ∷ kinds
    else if (c == 99) || ((c == 100) || ((c == 117) || ((c == 120) || (c == 112))))
    then number ∷ kinds
    else kinds

-- The kinds of the arguments that a format asks for, in order.
abbrev pub wanted : Place → List ℕ → List Kind
wanted place [] = []
wanted plain (c ∷ fmt) = if c == 37 then wanted percent fmt else wanted plain fmt
wanted percent (c ∷ fmt) = if c == 108 then wanted long fmt else reads c (wanted plain fmt)
wanted long (c ∷ fmt) = reads c (wanted plain fmt)

-- A number is a slot of 64 bits.
abbrev pub IsOfKind : Arg → Kind → Type 0
IsOfKind (word v) number = v < 2 ^ 64
IsOfKind (text s) string = Unit
IsOfKind _ _ = ◌≡◌ {A = Bool} true false

-- The arguments are of these kinds; more of them do no harm.
abbrev pub Matches : List Kind → List Arg → Type 0
Matches [] args = Unit
Matches (k ∷ kinds) [] = ◌≡◌ {A = Bool} true false
Matches (k ∷ kinds) (a ∷ args) = IsOfKind a k × Matches kinds args
