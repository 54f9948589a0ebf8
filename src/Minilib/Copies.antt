-- ===== src/Minilib/Copies.antt =====
-- The copies of common/src/minilib.c.
use native.Mathlib.Decide.{dec_lt}
use reborn_os.Prelude.{
  ℕ, zero, suc, ◌+◌, ◌-◌, ◌≤◌, ◌<◌, ◌≡◌, refl, ◌∙◌, ◌↔◌, ◌⊎◌, inl, inr, ◌&&◌, leb, ltb, ◌==◌,
  if◌then◌else◌, put, arith, Bool-cases,
}
use reborn_os.Minilib.Defs.{up_loop, down_loop, memcpy, memmove, memcmp, cmp_loop}

-- Memory with the `n` bytes from `src` on, as they were, also at `dst`.
abbrev pub copied : (ℕ → ℕ) → ℕ → ℕ → ℕ → ℕ → ℕ
copied m dst src n a = if leb dst a && ltb a (dst + n) then m (src + (a - dst)) else m a

-- The part of it that an upward loop has left from round `i` on.
abbrev copied_from : (ℕ → ℕ) → ℕ → ℕ → ℕ → ℕ → ℕ → ℕ
copied_from m dst src i n a =
    if leb (dst + i) a && ltb a (dst + i + n) then m (src + (a - dst)) else m a

up_loop-copied_from :
    (n i : ℕ) (m : ℕ → ℕ) (dst src a : ℕ)
    → (dst ≤ src) ⊎ (src + (i + n) ≤ dst)
    → up_loop n i m dst src a ≡ copied_from m dst src i n a
unfolding up_loop
up_loop-copied_from zero i m dst src a h = ground arith
up_loop-copied_from (suc n) i m dst src a h =
    up_loop-copied_from n (i + 1) (put m (dst + i) (m (src + i))) dst src a (ground arith)
    ∙ elim (Bool-cases (a == dst + i)) [
      | inl e ↦ (let same : a ≡ dst + i = ground arith in rw same (ground arith))
      | inr e ↦ ground arith
    ]

up_loop-copied :
    (n : ℕ) (m : ℕ → ℕ) (dst src a : ℕ)
    → (dst ≤ src) ⊎ (src + n ≤ dst)
    → up_loop n 0 m dst src a ≡ copied m dst src n a
up_loop-copied n m dst src a h = up_loop-copied_from n 0 m dst src a (ground arith) ∙ ground arith

down_loop-copied :
    (n : ℕ) (m : ℕ → ℕ) (dst src a : ℕ) → src ≤ dst → down_loop n m dst src a ≡ copied m dst src n a
unfolding down_loop
down_loop-copied zero m dst src a h = ground arith
down_loop-copied (suc n) m dst src a h =
    down_loop-copied n (put m (dst + n) (m (src + n))) dst src a h
    ∙ elim (Bool-cases (a == dst + n)) [
      | inl e ↦ (let same : a ≡ dst + n = ground arith in rw same (ground arith))
      | inr e ↦ ground arith
    ]

-- memmove leaves at the destination the bytes that the source held before, however the two
-- overlap, and changes nothing else.
pub memmove-copied : (m : ℕ → ℕ) (dst src n a : ℕ) → memmove m dst src n a ≡ copied m dst src n a
unfolding memmove
memmove-copied m dst src n a = elim (Bool-cases (ltb dst src)) [
  | inl e ↦ rw e (up_loop-copied n m dst src a (inl (ground arith)))
  | inr e ↦ rw e (down_loop-copied n m dst src a (ground arith))
]

pub memcpy-copied :
    (m : ℕ → ℕ) (dst src n a : ℕ)
    → (dst ≤ src) ⊎ (src + n ≤ dst)
    → memcpy m dst src n a ≡ copied m dst src n a
unfolding memcpy
memcpy-copied m dst src n a h = up_loop-copied n m dst src a h

-- What the rounds from `i` on compare.
abbrev Same : ℕ → ℕ → (ℕ → ℕ) → ℕ → ℕ → Type 0
Same n i m a b = (j : ℕ) → i ≤ j → j < i + n → m (a + j) ≡ m (b + j)

cmp_loop_iff :
    (n i : ℕ) (m : ℕ → ℕ) (a b : ℕ)
    → ((j : ℕ) → m j < 256)
    → (cmp_loop n i m a b ≡ 0) ↔ Same n i m a b
unfolding cmp_loop
cmp_loop_iff zero i m a b bytes = (λ h j l u. absurd (omega arith), λ h. refl)
cmp_loop_iff (suc n) i m a b bytes =
    let (to, from) = cmp_loop_iff n (i + 1) m a b bytes in
    let fst = bytes (a + i) in
    let snd = bytes (b + i) in
    (
      (λ h j l u. elim (dec_lt i j) [
        | yes p ↦ to (ground arith) j (omega arith) (omega arith)
        | no p ↦ (let e : j ≡ i = omega arith in rw e (ground arith))
      ]),
      λ h.
          let same = h i (omega arith) (omega arith) in
          let rest = from (λ j l u. h j (omega arith) (omega arith)) in ground arith,
    )

-- memcmp of two ranges of bytes gives 0 exactly if they hold the same bytes.
pub memcmp_iff :
    (m : ℕ → ℕ) (a b n : ℕ)
    → ((j : ℕ) → m j < 256)
    → (memcmp m a b n ≡ 0) ↔ ((j : ℕ) → j < n → m (a + j) ≡ m (b + j))
unfolding memcmp
memcmp_iff m a b n bytes =
    let (to, from) = cmp_loop_iff n 0 m a b bytes in
    (λ h j l. to h j (omega arith) (omega arith), λ h. from (λ j l u. h j (omega arith)))
