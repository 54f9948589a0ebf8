-- ===== src/Kprintf/Digits.antt =====
-- print_unsigned and print_signed of kernel/src/kprintf.c, read back.
use native.Mathlib.Nat.{div-lt_iff_lt-mul, pow-zero, pow-suc}
use reborn_os.Prelude.{
  ℕ, zero, suc, ◌+◌, ◌-◌, ◌*◌, ◌/◌, ◌%◌, ◌^◌, ◌<◌, ◌≡◌, ◌≢◌, refl, sym, ap, ap₂, subst, ◌∙◌, ◌⊎◌,
  inl, inr, Bool, true, false, List, [], ◌∷◌, ltb, ◌==◌, if◌then◌else◌, arith, Bool-cases, get_or,
  ==_ne,
}
use reborn_os.Kprintf.Defs.{digit_of, digit_loop, print_unsigned}

-- The number that a digit stands for.
unfoldable pub value_of_digit : ℕ → ℕ
value_of_digit c = if ltb c 58 then c - 48 else (if ltb c 71 then c - 55 else c - 87)

-- The number that a text stands for, most significant digit first.
unfoldable pub value_from : ℕ → ℕ → List ℕ → ℕ
value_from base acc [] = acc
value_from base acc (c ∷ cs) = value_from base (acc * base + value_of_digit c) cs

-- The text of a number in a base.
pub record Numeral (base v : ℕ) (s : List ℕ) : Type 0 where
  pub value : value_from base 0 s ≡ v
  pub no_zero : v ≢ 0 → get_or s 0 0 ≢ 48

value_of_digit-digit_of :
    (uppercase : Bool) (d : ℕ) → d < 16 → value_of_digit (digit_of uppercase d) ≡ d
unfolding value_of_digit digit_of
value_of_digit-digit_of true d h = ground arith
value_of_digit-digit_of false d h = ground arith

digit_of-ne_zero : (uppercase : Bool) (d : ℕ) → d ≢ 0 → digit_of uppercase d ≢ 48
unfolding digit_of
digit_of-ne_zero true d h e = ground arith
digit_of-ne_zero false d h e = ground arith

quotient-lt : (base v room : ℕ) → 0 < base → v < base ^ suc room → v / base < base ^ room
quotient-lt base v room pos h = (div-lt_iff_lt-mul pos).1 (subst (λ n. v < n) (pow-suc base room) h)

-- The loop over the rounds of a base of 10 or 16. `base` stays a variable, since both are alike.
module _ (base : ℕ) (uppercase : Bool) (ten_or_sixteen : (base ≡ 10) ⊎ (base ≡ 16)) where
  digit-lt : (v : ℕ) → v % base < 16
  digit-lt v = elim ten_or_sixteen [ inl e ↦ rw e (omega arith) | inr e ↦ rw e (omega arith) ]

  rest-lt : (v room : ℕ) → v < base ^ suc room → v / base < base ^ room
  rest-lt v room h = elim ten_or_sixteen [
    | inl e ↦ rw e (quotient-lt 10 v room (omega arith) (subst (λ b. v < b ^ suc room) e h))
    | inr e ↦ rw e (quotient-lt 16 v room (omega arith) (subst (λ b. v < b ^ suc room) e h))
  ]

  put_back : (v : ℕ) → v / base * base + v % base ≡ v
  put_back v = elim ten_or_sixteen [ inl e ↦ rw e (omega arith) | inr e ↦ rw e (omega arith) ]

  last_digit : (v : ℕ) → v / base * base + value_of_digit (digit_of uppercase (v % base)) ≡ v
  last_digit v =
      ap (λ d. v / base * base + d) (value_of_digit-digit_of uppercase (v % base) (digit-lt v))
      ∙ put_back v

  digit_loop-value :
      (room v : ℕ) (buf : List ℕ)
      → v < base ^ room
      → value_from base 0 (digit_loop room v base uppercase buf) ≡ value_from base v buf
  unfolding digit_loop value_from
  digit_loop-value zero v buf h =
      (let zero_v : v ≡ 0 = omega (arith, pow-zero base) in rw zero_v refl)
  digit_loop-value (suc room) v buf h = elim (Bool-cases (v == 0)) [
    | inl e ↦ (let zero_v : v ≡ 0 = ground arith in rw zero_v refl)
    | inr e ↦ rw e (
        digit_loop-value room (v / base) (digit_of uppercase (v % base) ∷ buf) (rest-lt v room h)
        ∙ ap (λ x. value_from base x buf) (last_digit v))
  ]

  digit_loop-done : (room v : ℕ) (buf : List ℕ) → v ≡ 0 → digit_loop room v base uppercase buf ≡ buf
  unfolding digit_loop
  digit_loop-done zero v buf e = refl
  digit_loop-done (suc room) v buf e = rw e refl

  last_digit_ne : (v : ℕ) → v / base ≡ 0 → v ≢ 0 → v % base ≢ 0
  last_digit_ne v e ne z = ne (sym (put_back v) ∙ ap₂ (λ q r. q * base + r) e z ∙ omega arith)

  digit_loop-first :
      (room v : ℕ) (buf : List ℕ)
      → v < base ^ room
      → v ≢ 0
      → get_or (digit_loop room v base uppercase buf) 0 0 ≢ 48
  unfolding digit_loop
  digit_loop-first zero v buf h ne = absurd (ne (omega (arith, pow-zero base)))
  digit_loop-first (suc room) v buf h ne = rw (==_ne v 0 ne) (elim (Bool-cases (v / base == 0)) [
    | inl e ↦
        (let gone : v / base ≡ 0 = ground arith in
          rw (digit_loop-done room (v / base) (digit_of uppercase (v % base) ∷ buf) gone)
            (digit_of-ne_zero uppercase (v % base) (last_digit_ne v gone ne)))
    | inr e ↦
        digit_loop-first room (v / base) (digit_of uppercase (v % base) ∷ buf) (rest-lt v room h)
          (ground arith)
  ])

fits : (v base : ℕ) → (base ≡ 10) ⊎ (base ≡ 16) → v < 2 ^ 64 → v < base ^ 32
fits v base b h = elim b [ inl e ↦ rw e (omega arith) | inr e ↦ rw e (omega arith) ]

-- The text that print_unsigned writes for a 64-bit number in base 10 or 16 reads back as that
-- number, and does not start with 0 unless the number is 0; the buffer of 32 digits is never too
-- short.
pub print_unsigned-Numeral :
    (v base : ℕ) (uppercase : Bool)
    → (base ≡ 10) ⊎ (base ≡ 16)
    → v < 2 ^ 64
    → Numeral base v (print_unsigned v base uppercase)
unfolding print_unsigned
print_unsigned-Numeral v base uppercase b h = elim (Bool-cases (v == 0)) [
  | inl e ↦
      (let zero_v : v ≡ 0 = ground arith in
        rw zero_v (record {
          value = (unfold value_from value_of_digit in omega arith);
          no_zero = λ ne. absurd (ne refl);
        }))
  | inr e ↦ rw e (record {
    value =
        digit_loop-value base uppercase b 32 v [] (fits v base b h) ∙ (unfold value_from in refl);
    no_zero = λ ne. digit_loop-first base uppercase b 32 v [] (fits v base b h) ne;
  })
]
