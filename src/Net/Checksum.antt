-- ===== src/Net/Checksum.antt =====
-- checksum16 of kernel/src/net.c, as a receiver verifies it.
use native.Mathlib.Decide.{dec_lt}
use reborn_os.Prelude.{
  ℕ, ◌+◌, ◌-◌, ◌*◌, ◌/◌, ◌%◌, ◌^◌, ◌≤◌, ◌<◌, ◌≡◌, refl, ap, subst, ◌∙◌, List, [], ◌∷◌, ◌++◌, length,
  arith, u32,
}
use reborn_os.Net.Defs.{htons16, sum_loop, fold_loop, checksum16, word16}

-- The sum of the 16-bit words of a message, in the order of the network.
abbrev pub word_sum : List ℕ → ℕ
word_sum [] = 0
word_sum (a ∷ []) = a * 256 % 65536
word_sum (a ∷ b ∷ rest) = (a * 256 + b) % 65536 + word_sum rest

sum_loop-word_sum :
    (l : List ℕ) (sum : ℕ) → sum + length l * 65536 < 2 ^ 32 → sum_loop l sum ≡ sum + word_sum l
unfolding sum_loop
sum_loop-word_sum [] sum h = omega arith
sum_loop-word_sum (a ∷ []) sum h = omega arith
sum_loop-word_sum (a ∷ b ∷ rest) sum h =
    let next : u32 (sum + (a * 256 + b) % 65536) ≡ sum + (a * 256 + b) % 65536 = omega arith in
    ap (sum_loop rest) next
    ∙ sum_loop-word_sum rest (sum + (a * 256 + b) % 65536) (omega arith)
    ∙ omega arith

word_sum-le : (l : List ℕ) → word_sum l ≤ length l * 65536
word_sum-le [] = omega arith
word_sum-le (a ∷ []) = omega arith
word_sum-le (a ∷ b ∷ rest) = omega (arith, word_sum-le rest)

-- What is left of a sum after the carries are added: the same number modulo 65535, in 16 bits, and 0
-- only for 0.
record Folded (sum r : ℕ) : Type 0 where
  small : r < 65536
  turns : ℕ
  same : sum ≡ turns * 65535 + r
  nonzero : sum ≤ r * 2 ^ 32

fold_loop-Folded : (sum : ℕ) → sum < 2 ^ 32 → Folded sum (fold_loop 2 sum)
unfolding fold_loop
fold_loop-Folded sum h = elim (dec_lt sum 65536) [
  | yes l ↦ record { small = ground arith; turns = 0; same = ground arith; nonzero = ground arith }
  | no l ↦ elim (dec_lt (sum % 65536 + sum / 65536) 65536) [
    | yes l' ↦ record {
      small = ground arith;
      turns = sum / 65536;
      same = ground arith;
      nonzero = ground arith;
    }
    | no l' ↦ record {
      small = ground arith;
      turns = sum / 65536 + 1;
      same = ground arith;
      nonzero = ground arith;
    }
  ]
]

-- Two sums that differ by what is missing from 0xFFFF: the second folds to 0xFFFF.
Folded-complement : {sum r r' : ℕ} → Folded sum r → Folded (sum + (65535 - r)) r' → r' ≡ 65535
Folded-complement {r} a b = omega (arith, a.small, a.same, b.small, b.same, b.nonzero)

checksum16-fold :
    (l : List ℕ) → length l ≤ 65535 → (r : ℕ) × Folded (word_sum l) r × (checksum16 l ≡ 65535 - r)
unfolding checksum16
checksum16-fold l h =
    let sum : sum_loop l 0 ≡ word_sum l = sum_loop-word_sum l 0 (omega arith) ∙ omega arith in
    let folded = fold_loop-Folded (word_sum l) (omega (arith, word_sum-le l)) in
    (
      fold_loop 2 (word_sum l),
      folded,
      ap (λ s. 65535 - fold_loop 2 s % 65536) sum ∙ omega (arith, folded.small),
    )

word16-htons16 : (c : ℕ) → c < 65536 → word16 (htons16 c) ≡ c / 256 ∷ c % 256 ∷ []
unfolding htons16
word16-htons16 c h =
    let high : (c * 256 + c / 256) % 2 ^ 16 % 256 ≡ c / 256 = omega arith in
    let low : (c * 256 + c / 256) % 2 ^ 16 / 256 % 256 ≡ c % 256 = omega arith in
    rw (high, low) refl

word_sum-at :
    (before after : List ℕ) (a b : ℕ)
    → length before % 2 ≡ 0
    → word_sum (before ++ (a ∷ b ∷ after))
      ≡ word_sum (before ++ (0 ∷ 0 ∷ after)) + (a * 256 + b) % 65536
word_sum-at [] after a b h = omega arith
word_sum-at (x ∷ []) after a b h = absurd (omega arith)
word_sum-at (x ∷ y ∷ before) after a b h = omega (arith, word_sum-at before after a b (omega arith))

length-at :
    (before after : List ℕ) (a b : ℕ)
    → length (before ++ (a ∷ b ∷ after)) ≡ length before + 2 + length after
length-at [] after a b = omega arith
length-at (x ∷ before) after a b = omega (arith, length-at before after a b)

-- If the checksum field of a message lies at an even offset, and holds the checksum that the
-- message has with 0 there, then the checksum of the whole message is 0, for each message of at
-- most 65535 bytes.
pub checksum16-verify :
    (before after : List ℕ)
    → length before % 2 ≡ 0
    → length before + 2 + length after ≤ 65535
    → checksum16
        (before ++ (word16 (htons16 (checksum16 (before ++ (word16 0 ++ after)))) ++ after))
      ≡ 0
checksum16-verify before after even short =
    let (r, folded, first) =
      checksum16-fold (before ++ (0 ∷ 0 ∷ after)) (omega (arith, length-at before after 0 0)) in
    let c = checksum16 (before ++ (0 ∷ 0 ∷ after)) in
    let (r', folded', second) =
      checksum16-fold (before ++ (c / 256 ∷ c % 256 ∷ after))
        (omega (arith, length-at before after (c / 256) (c % 256))) in
    let sum : word_sum (before ++ (c / 256 ∷ c % 256 ∷ after))
        ≡ word_sum (before ++ (0 ∷ 0 ∷ after)) + (65535 - r) =
      word_sum-at before after (c / 256) (c % 256) even ∙ omega (arith, first, folded.small) in
    ap (λ w. checksum16 (before ++ (w ++ after))) (word16-htons16 c (omega (arith, first)))
    ∙ (second ∙ omega (arith, Folded-complement folded (subst (λ s. Folded s r') sum folded')))
