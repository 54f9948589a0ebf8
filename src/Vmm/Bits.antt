-- ===== src/Vmm/Bits.antt =====
-- What `|` makes of the flags of a page-table entry in kernel/src/vmm.c.
use Prim.Native.Nat.{digits, bit_or-bitwise}
use reborn_os.Prelude.{
  ℕ, zero, suc, ◌+◌, ◌*◌, ◌/◌, ◌%◌, ◌≤◌, ◌≡◌, refl, ap, sym, ◌∙◌, max, bit_or, arith, ◌==◌, true,
  inl, inr, Bool-cases, ◌⊎◌,
}
use reborn_os.Vmm.Defs.{table_of, link_entry, leaf_flags, is_present}

-- The recursion that `bit_or` stands for may be given any fuel that covers its first operand.
or_fuel :
    (m n a b : ℕ)
    → a ≤ m
    → a ≤ n
    → digits (λ rest. rest) max m a b ≡ digits (λ rest. rest) max n a b
or_fuel zero zero a b p q = refl
or_fuel zero (suc n) zero b p q = refl
or_fuel (suc m) zero zero b p q = refl
or_fuel (suc m) (suc n) zero b p q = refl
or_fuel (suc m) (suc n) (suc a) b p q =
    ap (λ d. d * 2 + max (suc a % 2) (b % 2))
      (or_fuel m n (suc a / 2) (b / 2) (omega arith) (omega arith))
or_fuel zero (suc n) (suc a) b p q = absurd (omega arith)
or_fuel (suc m) zero (suc a) b p q = absurd (omega arith)

-- The lowest digit of `|`, and the others.
or-digit : (a b : ℕ) → bit_or a b ≡ bit_or (a / 2) (b / 2) * 2 + max (a % 2) (b % 2)
or-digit zero b =
    bit_or-bitwise 0 b
    ∙ (omega arith ∙ ap (λ d. d * 2 + max 0 (b % 2)) (sym (bit_or-bitwise 0 (b / 2))))
or-digit (suc a) b =
    bit_or-bitwise (suc a) b
    ∙ ap (λ d. d * 2 + max (suc a % 2) (b % 2))
        (or_fuel a (suc a / 2) (suc a / 2) (b / 2) (omega arith) (omega arith)
          ∙ sym (bit_or-bitwise (suc a / 2) (b / 2)))

pub or-low : (a b : ℕ) → bit_or a b % 2 ≡ max (a % 2) (b % 2)
or-low a b = let e = or-digit a b in omega arith

pub or-half : (a b : ℕ) → bit_or a b / 2 ≡ bit_or (a / 2) (b / 2)
or-half a b = let e = or-digit a b in omega arith

digits_zero : (n a : ℕ) → a ≤ n → digits (λ rest. rest) max n a 0 ≡ a
digits_zero zero zero p = refl
digits_zero (suc n) zero p = refl
digits_zero (suc n) (suc a) p =
    ap (λ d. d * 2 + max (suc a % 2) 0) (digits_zero n (suc a / 2) (omega arith)) ∙ omega arith
digits_zero zero (suc a) p = absurd (omega arith)

or_zero : (a : ℕ) → bit_or a 0 ≡ a
or_zero a = bit_or-bitwise a 0 ∙ digits_zero a a (omega arith)

or_one : (a : ℕ) → a % 2 ≡ 0 → bit_or a 1 ≡ a + 1
or_one a e = or-digit a 1 ∙ (ap (λ d. d * 2 + max (a % 2) 1) (or_zero (a / 2)) ∙ omega arith)

or_two : (a : ℕ) → a % 4 ≤ 1 → bit_or a 2 ≡ a + 2
or_two a e =
    or-digit a 2 ∙ (ap (λ d. d * 2 + max (a % 2) 0) (or_one (a / 2) (omega arith)) ∙ omega arith)

or_four : (a : ℕ) → a % 8 ≤ 3 → bit_or a 4 ≡ a + 4
or_four a e =
    or-digit a 4 ∙ (ap (λ d. d * 2 + max (a % 2) 0) (or_two (a / 2) (omega arith)) ∙ omega arith)

-- The entry of a table at a page is the page's address with its three low bits set.
pub link_entry-page : (page : ℕ) → page % 4096 ≡ 0 → link_entry page ≡ page + 7
link_entry-page page e =
    rw (or_one page (omega arith))
      (rw (or_two (page + 1) (omega arith)) (or_four (page + 1 + 2) (omega arith) ∙ omega arith))

or_odd : (a b : ℕ) → (a % 2 ≡ 1) ⊎ (b % 2 ≡ 1) → bit_or a b % 2 ≡ 1
or_odd a b o = let e = or-digit a b in ground (arith, e)

leaf_flags_odd : (flags : ℕ) → leaf_flags flags % 2 ≡ 1
leaf_flags_odd flags = elim (Bool-cases (flags % 2 == 1)) [
  | inl e ↦ elim (Bool-cases ((flags / 2) % 2 == 1)) [
    | inl f ↦ rw (e, f) refl
    | inr f ↦ rw (e, f) refl
  ]
  | inr e ↦ elim (Bool-cases ((flags / 2) % 2 == 1)) [
    | inl f ↦ rw (e, f) refl
    | inr f ↦ rw (e, f) refl
  ]
]

-- A leaf is marked as present, whatever its flags.
pub leaf_present :
    (paddr flags : ℕ) → is_present (bit_or (table_of paddr) (leaf_flags flags)) ≡ true
leaf_present paddr flags =
    let e = or_odd (table_of paddr) (leaf_flags flags) (inr (leaf_flags_odd flags)) in ground arith
