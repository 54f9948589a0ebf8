-- ===== src/Heap/Alloc.antt =====
-- kmalloc of kernel/src/heap.c against first fit on the list of blocks.
use reborn_os.Prelude.{
  ℕ, zero, suc, ◌+◌, ◌-◌, ◌≤◌, ◌<◌, ◌≡◌, refl, sym, ap, ◌∙◌, true, false, Option, some, List, [],
  ◌∷◌, ltb, ◌==◌, if◌then◌else◌, add64, sub64, arith, length, Bool-cases, inl, inr, ==_ne, ==_self,
  ltb→le,
}
use reborn_os.Heap.Defs.{
  Headers, Heap, update, heap_base, heap_end, header_size, heap_align, split_block, kmalloc_loop,
  kmalloc, align_up, max_blocks,
}
use reborn_os.Heap.Cells.{
  Cell, cell, behind, link, Chain, IsHeap, fits, split, first_fit, fit_pointer, Chain-agree,
  Chain-le,
}

-- `split_block(b, size); b->free = 0;`
abbrev take : Headers → ℕ → ℕ → Headers
take m b size = let m' = split_block m b size in update m' b (record (m' b) { is_free = false })

take-at_whole :
    (m : Headers) (a n x : ℕ)
    → (m a).size ≤ heap_end
    → n ≤ (m a).size
    → ltb (m a).size (n + header_size + heap_align) ≡ true
    → take m a n x ≡ (if x == a then record (m a) { is_free = false } else m x)
unfolding split_block
take-at_whole m a n x l k e =
    let e' : ltb (m a).size (add64 (add64 n header_size) heap_align) ≡ true = ground arith in
    rw e' (ground arith)

take-at_split :
    (m : Headers) (a n x : ℕ)
    → a + header_size + (m a).size ≤ heap_end
    → n ≤ (m a).size
    → ltb (m a).size (n + header_size + heap_align) ≡ false
    → take m a n x ≡ (
        if x == a
        then record { size = n; is_free = false; next = a + header_size + n }
        else if x == a + header_size + n
        then record { size = (m a).size - n - header_size; is_free = true; next = (m a).next }
        else m x)
unfolding split_block
take-at_split m a n x l k e =
    let e' : ltb (m a).size (add64 (add64 n header_size) heap_align) ≡ false = ground arith in
    let room : n + header_size + heap_align ≤ (m a).size = ltb→le _ _ e in
    let r : add64 (add64 a header_size) n ≡ a + header_size + n = omega arith in
    let s : sub64 (sub64 (m a).size n) header_size ≡ (m a).size - n - header_size = omega arith in
    rw e' (rw (r, s) (ground arith))

split-whole :
    (m : Headers) (a n : ℕ) (c : Cell) (cs : List Cell)
    → Chain m a (c ∷ cs)
    → n ≤ c.size
    → ltb c.size (n + header_size + heap_align) ≡ true
    → Chain (take m a n) a (cell c.size false ∷ cs)
split-whole m a n c cs h k e = (
  rw (at a) (rw (==_self a, h.0) refl),
  Chain-agree m (take m a n) (behind a c) cs
      (λ x l. rw (at x) (rw (==_ne x a (λ i. omega arith)) refl)) h.1,
)
  where
    at : (x : ℕ) → take m a n x ≡ (if x == a then record (m a) { is_free = false } else m x)
    at x =
        take-at_whole m a n x (rw h.0 (omega (arith, Chain-le m (behind a c) cs h.1))) (rw h.0 k)
          (rw h.0 e)

split-two :
    (m : Headers) (a n : ℕ) (c : Cell) (cs : List Cell)
    → Chain m a (c ∷ cs)
    → n ≤ c.size
    → ltb c.size (n + header_size + heap_align) ≡ false
    → Chain (take m a n) a (cell n false ∷ cell (c.size - n - header_size) true ∷ cs)
split-two m a n c cs h k e =
    let room : n + header_size + heap_align ≤ c.size = ltb→le _ _ e in
    let same : a + header_size + n + header_size + (c.size - n - header_size) ≡ behind a c =
      omega arith in
    (
      rw (at a) (rw (==_self a) refl),
      (
        rw (at (a + header_size + n)) (
            rw
              (
                ==_ne (a + header_size + n) a (λ i. omega arith),
                ==_self (a + header_size + n),
                h.0,
                same,
              )
              refl),
        rw same (
            Chain-agree m (take m a n) (behind a c) cs
              (λ x l. rw (at x) (
                rw (==_ne x a (λ i. omega arith), ==_ne x (a + header_size + n) (λ i. omega arith))
                  refl))
              h.1),
      ),
    )
  where
    at :
        (x : ℕ)
        → take m a n x ≡ (
            if x == a
            then record { size = n; is_free = false; next = a + header_size + n }
            else if x == a + header_size + n
            then record { size = (m a).size - n - header_size; is_free = true; next = (m a).next }
            else m x)
    at x =
        take-at_split m a n x (rw h.0 (omega (arith, Chain-le m (behind a c) cs h.1))) (rw h.0 k)
          (rw h.0 e)

take-split :
    (m : Headers) (a n : ℕ) (c : Cell) (cs : List Cell)
    → Chain m a (c ∷ cs)
    → n ≤ c.size
    → Chain (take m a n) a (split n c cs)
take-split m a n c cs h k = elim (Bool-cases (ltb c.size (n + header_size + heap_align))) [
  | inl e ↦ rw e (split-whole m a n c cs h k e)
  | inr e ↦ rw e (split-two m a n c cs h k e)
]

-- Nothing below the block is written.
take-below :
    (m : Headers) (a n x : ℕ)
    → a + header_size + (m a).size ≤ heap_end
    → n ≤ (m a).size
    → x < a
    → take m a n x ≡ m x
take-below m a n x l k p = elim (Bool-cases (ltb (m a).size (n + header_size + heap_align))) [
  | inl e ↦ rw (take-at_whole m a n x (omega arith) k e) (rw (==_ne x a (λ i. omega arith)) refl)
  | inr e ↦
      rw (take-at_split m a n x l k e)
        (rw (==_ne x a (λ i. omega arith), ==_ne x (a + header_size + n) (λ i. omega arith)) refl)
]

link-first_fit : (n a : ℕ) (cs : List Cell) → link a (first_fit n cs) ≡ link a cs
unfolding first_fit
link-first_fit n a [] = refl
link-first_fit n a (c ∷ cs) = ground arith

-- What kmalloc's loop gives over the blocks from `a` on.
record FirstFit (n a : ℕ) (m : Headers) (cs : List Cell) (r : Option (ℕ × Headers)) : Type 0 where
  after : Headers
  returns : r ≡ some (fit_pointer n a cs, after)
  chain : Chain after a (first_fit n cs)
  below : (x : ℕ) → x < a → after x ≡ m x

kmalloc_loop-FirstFit :
    (rounds n a : ℕ) (m : Headers) (cs : List Cell)
    → Chain m a cs
    → 0 < a
    → length cs < rounds
    → FirstFit n a m cs (kmalloc_loop rounds n (link a cs) m)
unfolding kmalloc_loop first_fit fit_pointer
kmalloc_loop-FirstFit zero n a m cs h p f = absurd (omega arith)
kmalloc_loop-FirstFit (suc rounds) n a m [] h p f = record {
  after = m;
  returns = refl;
  chain = h;
  below = λ x l. refl;
}
kmalloc_loop-FirstFit (suc rounds) n a m (c ∷ cs) h p f = elim (Bool-cases (fits n c)) [
  | inl e ↦ record {
    after = take m a n;
    returns =
        rw (==_ne a 0 (λ i. omega arith), h.0, e)
          (ap (λ k. some (k, take m a n)) (omega (arith, Chain-le m (behind a c) cs h.1)));
    chain = rw e (take-split m a n c cs h (ground arith));
    below = λ x l.
        take-below m a n x (rw h.0 (omega (arith, Chain-le m (behind a c) cs h.1)))
          (rw h.0 (ground arith)) l;
  }
  | inr e ↦
      let rest = kmalloc_loop-FirstFit rounds n (behind a c) m cs h.1 (omega arith) (omega arith) in
      record {
        after = rest.after;
        returns = rw (==_ne a 0 (λ i. omega arith), h.0, e) rest.returns;
        chain = rw e (
          rest.below a (omega arith) ∙ h.0 ∙ rw (link-first_fit n (behind a c) cs) refl,
          rest.chain,
        );
        below = λ x l. rest.below x (omega arith);
      }
]

-- In a heap whose headers tile the region, kmalloc of a non-zero size does to the list of blocks
-- what first fit does with the size rounded up to a multiple of 16 in 64 bits, and returns its
-- pointer; the walk over the list ends.
pub kmalloc-first_fit :
    (h : Heap) (cs : List Cell) (size : ℕ)
    → IsHeap h cs
    → 0 < size
    → (t : Heap) × (kmalloc h size ≡ some (fit_pointer (align_up size) heap_base cs, t))
      × IsHeap t (first_fit (align_up size) cs)
unfolding kmalloc
kmalloc-first_fit h cs size v p =
    let r =
      kmalloc_loop-FirstFit max_blocks (align_up size) heap_base h.headers cs v.chain (omega arith)
        (omega (arith, Chain-le h.headers heap_base cs v.chain)) in
    (
      record h { headers = r.after },
      rw (==_ne size 0 (λ i. omega arith), v.head_is, r.returns) refl,
      record {
        head_is = v.head_is ∙ sym (link-first_fit (align_up size) heap_base cs);
        chain = r.chain;
      },
    )
