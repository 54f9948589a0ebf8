-- ===== src/Kprintf/Format.antt =====
-- kvprintf of kernel/src/kprintf.c writes the text that its format means.
use mathlib.Core.List.{append-nil, append_assoc}
use reborn_os.Prelude.{
  ℕ, ◌+◌, ◌-◌, ◌%◌, ◌^◌, ◌<◌, ◌≡◌, ◌⊎◌, refl, sym, ap, ◌∙◌, subst, inl, inr, Bool, true, false,
  Option, none, some, List, [], ◌∷◌, ◌++◌, ◌==◌, ltb, if◌then◌else◌, Bool-cases, arith,
}
use reborn_os.Kprintf.Defs.{
  Arg, word, text, Place, plain, percent, long, case_of, conversion, format_loop, kvprintf,
  print_signed, print_unsigned, as_int,
}
use reborn_os.Kprintf.Digits.{Numeral, print_unsigned-Numeral}
use reborn_os.Kprintf.Text.{
  Signed, long_positive, long_negative, positive, negative, Converts, string, null, character,
  signed, decimal, hex, pointer, sign, unknown, Printed, finished, ends_in_sign, ends_in_long,
  literal, short, longer, Kind, reads, wanted, Matches, unsigned_value,
}

long-Signed : (v : ℕ) → v < 2 ^ 64 → Signed true v (print_signed v)
unfolding print_signed
long-Signed v h = elim (Bool-cases (ltb v (2 ^ 63))) [
  | inl e ↦ rw e (long_positive (ground arith) (print_unsigned-Numeral v 10 false (inl refl) h))
  | inr e ↦
      (let magnitude : (2 ^ 64 - v) % 2 ^ 64 ≡ 2 ^ 64 - v = ground arith in
        rw (e, magnitude)
          (long_negative (ground arith)
            (print_unsigned-Numeral (2 ^ 64 - v) 10 false (inl refl) (ground arith))))
]

short-Signed : (v : ℕ) → Signed false v (print_signed (as_int v))
unfolding print_signed
short-Signed v = elim (Bool-cases (ltb (v % 2 ^ 32) (2 ^ 31))) [
  | inl e ↦
      (let small : ltb (v % 2 ^ 32) (2 ^ 63) ≡ true = ground arith in
        rw (e, small)
          (positive (ground arith)
            (print_unsigned-Numeral (v % 2 ^ 32) 10 false (inl refl) (omega arith))))
  | inr e ↦
      (let big : ltb (v % 2 ^ 32 + 2 ^ 64 - 2 ^ 32) (2 ^ 63) ≡ false = ground arith in
        let magnitude : (2 ^ 64 - (v % 2 ^ 32 + 2 ^ 64 - 2 ^ 32)) % 2 ^ 64 ≡ 2 ^ 32 - v % 2 ^ 32 =
          ground arith in
        rw (e, big, magnitude)
          (negative (ground arith)
            (print_unsigned-Numeral (2 ^ 32 - v % 2 ^ 32) 10 false (inl refl) (ground arith))))
]

any-Signed :
    (is_long : Bool) (v : ℕ)
    → v < 2 ^ 64
    → Signed is_long v (print_signed (if is_long then v else as_int v))
any-Signed true v h = long-Signed v h
any-Signed false v h = short-Signed v

any_unsigned :
    (is_long : Bool) (v base : ℕ)
    → (base ≡ 10) ⊎ (base ≡ 16)
    → v < 2 ^ 64
    → Numeral base (unsigned_value is_long v) (print_unsigned (unsigned_value is_long v) base false)
any_unsigned true v base b h = print_unsigned-Numeral v base false b h
any_unsigned false v base b h = print_unsigned-Numeral (v % 2 ^ 32) base false b (omega arith)

-- What a conversion comes to on arguments that match.
abbrev Done : Bool → List Kind → List Arg → ℕ → Type 0
Done is_long kinds args c =
    Matches (reads c kinds) args
    → (piece : List ℕ) × (left : List Arg) × (conversion is_long (case_of c) args
        ≡ some (piece, left))
      × Converts is_long c args piece left
      × Matches kinds left

module _ (is_long : Bool) (kinds : List Kind) where
  string-Done : (args : List Arg) → Done is_long kinds args 115
  unfolding conversion case_of
  string-Done [] m = cc
  string-Done (word v ∷ args) m = cc
  string-Done (text none ∷ args) m = (_, args, refl, null, m.1)
  string-Done (text (some s) ∷ args) m = (s, args, refl, string, m.1)

  char-Done : (args : List Arg) → Done is_long kinds args 99
  unfolding conversion case_of
  char-Done [] m = cc
  char-Done (text s ∷ args) m = cc
  char-Done (word v ∷ args) m = (_, args, refl, character, m.1)

  signed-Done : (args : List Arg) → Done is_long kinds args 100
  unfolding conversion case_of
  signed-Done [] m = cc
  signed-Done (text s ∷ args) m = cc
  signed-Done (word v ∷ args) m = (_, args, refl, signed (any-Signed is_long v m.0), m.1)

  unsigned-Done : (args : List Arg) → Done is_long kinds args 117
  unfolding conversion case_of
  unsigned-Done [] m = cc
  unsigned-Done (text s ∷ args) m = cc
  unsigned-Done (word v ∷ args) m =
      (_, args, refl, decimal (any_unsigned is_long v 10 (inl refl) m.0), m.1)

  hex-Done : (args : List Arg) → Done is_long kinds args 120
  unfolding conversion case_of
  hex-Done [] m = cc
  hex-Done (text s ∷ args) m = cc
  hex-Done (word v ∷ args) m = (_, args, refl, hex (any_unsigned is_long v 16 (inr refl) m.0), m.1)

  pointer-Done : (args : List Arg) → Done is_long kinds args 112
  unfolding conversion case_of
  pointer-Done [] m = cc
  pointer-Done (text s ∷ args) m = cc
  pointer-Done (word v ∷ args) m =
      (_, args, refl, pointer (print_unsigned-Numeral v 16 false (inr refl) m.0), m.1)

  sign-Done : (args : List Arg) → Done is_long kinds args 37
  unfolding conversion case_of
  sign-Done args m = (_, args, refl, sign, m)

  at_letter :
      (c k : ℕ) (args : List Arg)
      → (c == k) ≡ true
      → Done is_long kinds args k
      → Done is_long kinds args c
  at_letter c k args e done =
      let same : k ≡ c = ground arith in subst (Done is_long kinds args) same done

  conversion-Done : (args : List Arg) (c : ℕ) → Done is_long kinds args c
  unfolding conversion case_of
  conversion-Done args c = elim (Bool-cases (c == 115)) [
    | inl e ↦ at_letter c 115 args e (string-Done args)
    | inr e₁ ↦ elim (Bool-cases (c == 99)) [
      | inl e ↦ at_letter c 99 args e (char-Done args)
      | inr e₂ ↦ elim (Bool-cases (c == 100)) [
        | inl e ↦ at_letter c 100 args e (signed-Done args)
        | inr e₃ ↦ elim (Bool-cases (c == 117)) [
          | inl e ↦ at_letter c 117 args e (unsigned-Done args)
          | inr e₄ ↦ elim (Bool-cases (c == 120)) [
            | inl e ↦ at_letter c 120 args e (hex-Done args)
            | inr e₅ ↦ elim (Bool-cases (c == 112)) [
              | inl e ↦ at_letter c 112 args e (pointer-Done args)
              | inr e₆ ↦ elim (Bool-cases (c == 37)) [
                | inl e ↦ at_letter c 37 args e (sign-Done args)
                | inr e₇ ↦
                    rw (e₁, e₂, e₃, e₄, e₅, e₆, e₇)
                      (λ m. (
                        _,
                        args,
                        refl,
                        unknown (
                          (λ z. ground arith),
                          (λ z. ground arith),
                          (λ z. ground arith),
                          (λ z. ground arith),
                          (λ z. ground arith),
                          (λ z. ground arith),
                          λ z. ground arith,
                        ),
                        m,
                      ))
              ]
            ]
          ]
        ]
      ]
    ]
  ]

-- What is left to print at a place in the format.
abbrev PrintedAt : Place → List ℕ → List Arg → List ℕ → Type 0
PrintedAt plain fmt args s = Printed fmt args s
PrintedAt percent fmt args s = Printed (37 ∷ fmt) args s
PrintedAt long fmt args s = Printed (37 ∷ 108 ∷ fmt) args s

abbrev Returns : Place → List ℕ → List Arg → List ℕ → Option (List ℕ) → Type 0
Returns place fmt args out o = (s : List ℕ) × (o ≡ some (out ++ s)) × PrintedAt place fmt args s

-- The rest of the loop after a conversion.
after_conversion :
    (is_long : Bool) (c : ℕ) (place : Place) (fmt : List ℕ) (args : List Arg) (out : List ℕ)
    → Done is_long (wanted plain fmt) args c
    → Matches (reads c (wanted plain fmt)) args
    → ((piece s : List ℕ) (left : List Arg)
        → Converts is_long c args piece left
        → Printed fmt left s
        → PrintedAt place (c ∷ fmt) args (piece ++ s))
    → ((left : List Arg) (out' : List ℕ)
        → Matches (wanted plain fmt) left
        → Returns plain fmt left out' (format_loop plain fmt left out'))
    → Returns place (c ∷ fmt) args out (elim (conversion is_long (case_of c) args) [
      | none ↦ none
      | some (written, left) ↦ format_loop plain fmt left (out ++ written)
    ])
after_conversion is_long c place fmt args out done m step rest =
    let (piece, left, same, converts, m') = done m in
    let (s, returns, printed) = rest left (out ++ piece) m' in
    rw same
      (piece ++ s, returns ∙ ap some (append_assoc out piece s), step piece s left converts printed)

format_loop-Returns :
    (place : Place) (fmt : List ℕ) (args : List Arg) (out : List ℕ)
    → Matches (wanted place fmt) args
    → Returns place fmt args out (format_loop place fmt args out)
unfolding format_loop
format_loop-Returns plain [] args out m = ([], ap some (sym (append-nil out)), finished)
format_loop-Returns percent [] args out m = ([], ap some (sym (append-nil out)), ends_in_sign)
format_loop-Returns long [] args out m = ([], ap some (sym (append-nil out)), ends_in_long)
format_loop-Returns plain (c ∷ fmt) args out m = elim (Bool-cases (c == 37)) [
  | inl e ↦
      (let same : c ≡ 37 = ground arith in
        rw same (format_loop-Returns percent fmt args out (rw e at m)))
  | inr e ↦
      (let (s, returns, printed) =
          format_loop-Returns plain fmt args (out ++ (c ∷ [])) (rw e at m) in
        rw e (
          c ∷ s,
          returns ∙ ap some (append_assoc out (c ∷ []) s),
          literal (λ z. ground arith) printed,
        ))
]
format_loop-Returns percent (c ∷ fmt) args out m = elim (Bool-cases (c == 108)) [
  | inl e ↦
      (let same : c ≡ 108 = ground arith in
        rw same (format_loop-Returns long fmt args out (rw e at m)))
  | inr e ↦ rw e (
      after_conversion false c percent fmt args out
        (conversion-Done false (wanted plain fmt) args c) (rw e at m)
        (λ piece s left converts printed. short (λ z. ground arith) converts printed)
        (λ left out'. format_loop-Returns plain fmt left out'))
]
format_loop-Returns long (c ∷ fmt) args out m =
    after_conversion true c long fmt args out (conversion-Done true (wanted plain fmt) args c) m
      (λ piece s left converts printed. longer converts printed)
      (λ left out'. format_loop-Returns plain fmt left out')

-- If the arguments are of the kinds that the format asks for, a string for %s and a 64-bit slot
-- for %c, %d, %u, %x and %p, kvprintf reads no argument that is missing or of the wrong kind,
-- returns, and writes the text that the format means: %d in decimal with its sign, %u in decimal,
-- %x and %p in base 16, of 32 bits or, after l and for %p, of 64.
pub kvprintf-Printed :
    (fmt : List ℕ) (args : List Arg)
    → Matches (wanted plain fmt) args
    → (s : List ℕ) × (kvprintf fmt args ≡ some s) × Printed fmt args s
unfolding kvprintf
kvprintf-Printed fmt args m = format_loop-Returns plain fmt args [] m
