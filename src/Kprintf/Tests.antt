-- ===== src/Kprintf/Tests.antt =====
-- Runs of kernel/src/kprintf.c.
use reborn_os.Prelude.{ℕ, ◌-◌, ◌^◌, ◌≡◌, refl, inr, false, none, some, List, [], ◌∷◌, arith}
use reborn_os.Kprintf.Defs.{
  digit_of, digit_loop, print_unsigned, print_signed, Arg, word, text, case_of, conversion,
  format_loop, kvprintf,
}
use reborn_os.Kprintf.Digits.{Numeral, print_unsigned-Numeral}
use reborn_os.Kprintf.Text.{Printed}
use reborn_os.Kprintf.Format.{kvprintf-Printed}

print_unsigned-Numeral_example : Numeral 16 (2 ^ 64 - 1) (print_unsigned (2 ^ 64 - 1) 16 false)
print_unsigned-Numeral_example =
    print_unsigned-Numeral (2 ^ 64 - 1) 16 false (inr refl) (omega arith)

-- "3e8"
hex : print_unsigned 1000 16 false ≡ 51 ∷ 101 ∷ 56 ∷ []
unfolding print_unsigned digit_loop digit_of
hex = refl

-- "-5"
negative : print_signed (2 ^ 64 - 5) ≡ 45 ∷ 53 ∷ []
unfolding print_signed print_unsigned digit_loop digit_of
negative = refl

-- "%s=%lu%" with a NULL string; the last % is dropped.
abbrev fmt : List ℕ
fmt = 37 ∷ 115 ∷ 61 ∷ 37 ∷ 108 ∷ 117 ∷ 37 ∷ []

abbrev args : List Arg
args = text none ∷ word 42 ∷ []

kvprintf-Printed_example : (s : List ℕ) × (kvprintf fmt args ≡ some s) × Printed fmt args s
kvprintf-Printed_example = kvprintf-Printed fmt args (tt, (omega arith, tt))

-- "(null)=42"
printed : kvprintf fmt args ≡ some (40 ∷ 110 ∷ 117 ∷ 108 ∷ 108 ∷ 41 ∷ 61 ∷ 52 ∷ 50 ∷ [])
unfolding kvprintf format_loop case_of conversion print_unsigned digit_loop digit_of
printed = refl
