-- ===== src/Heap/Live.antt =====
-- The allocations that the callers of kernel/src/heap.c hold, over kmalloc and kfree.
use reborn_os.Prelude.{
  ℕ, ◌+◌, ◌-◌, ◌^◌, ◌≤◌, ◌<◌, ◌≡◌, ◌≢◌, refl, sym, ap, ◌∙◌, subst, eq_of_some, true, false, none,
  some, List, [], ◌∷◌, ltb, ◌==◌, if◌then◌else◌, arith, Bool-cases, inl, inr, ltb→le,
}
use reborn_os.Heap.Defs.{
  Headers, Heap, heap_base, heap_end, header_size, heap_align, kmalloc, kfree, align_up,
}
use reborn_os.Heap.Cells.{
  Cell, behind, Chain, IsHeap, absorb, free_at, first_fit, fit_pointer, fits, split, live, Chain-le,
}
use reborn_os.Heap.Alloc.{kmalloc-first_fit}
use reborn_os.Heap.Free.{kfree-free_at}

-- No allocation starts below the blocks.
live-below : (a x : ℕ) (cs : List Cell) → x < a → live a cs x ≡ none
unfolding live
live-below a x [] l = refl
live-below a x (c ∷ cs) l = ground (arith, live-below (behind a c) x cs)

live-absorb :
    (a x : ℕ) (c : Cell) (cs : List Cell) → live a (absorb c cs) x ≡ live (behind a c) cs x
unfolding live
live-absorb a x c [] = ground arith
live-absorb a x c (d ∷ cs) =
    let same : a + header_size + (c.size + (header_size + d.size)) ≡ behind (behind a c) d =
      omega arith in
    ground arith

live-free_at :
    (p a x : ℕ) (cs : List Cell)
    → live a (free_at p a cs) x ≡ (if x == p then none else live a cs x)
unfolding live free_at
live-free_at p a x [] = ground arith
live-free_at p a x (c ∷ cs) =
    ground
      (arith, live-absorb a x c cs, live-free_at p (behind a c) x cs, live-below (behind a c) x cs)

-- What first fit gives: a block of at least `n` bytes, that was not live.
record Taken (n a : ℕ) (cs : List Cell) : Type 0 where
  size : ℕ
  enough : n ≤ size
  fresh : live a cs (fit_pointer n a cs - header_size) ≡ none
  inside : (a + header_size ≤ fit_pointer n a cs) × (fit_pointer n a cs + size ≤ heap_end)
  lives :
      (x : ℕ)
      → live a (first_fit n cs) x
        ≡ (if x + header_size == fit_pointer n a cs then some size else live a cs x)

live-split :
    (n a x : ℕ) (c : Cell) (cs : List Cell)
    → fits n c ≡ true
    → live a (split n c cs) x ≡ (
        if x + header_size == a + header_size
        then some (if ltb c.size (n + header_size + heap_align) then c.size else n)
        else live a (c ∷ cs) x)
unfolding live
live-split n a x c cs e =
    let same : ltb c.size (n + header_size + heap_align) ≡ false
        → a + header_size + n + header_size + (c.size - n - header_size) ≡ behind a c =
      λ e. (let room : n + header_size + heap_align ≤ c.size = ltb→le _ _ e in omega arith) in
    ground (arith, live-below (behind a c) x cs)

fit_pointer-ge :
    (n a : ℕ) (cs : List Cell) → fit_pointer n a cs ≢ 0 → a + header_size ≤ fit_pointer n a cs
unfolding fit_pointer
fit_pointer-ge n a [] p = absurd (p refl)
fit_pointer-ge n a (c ∷ cs) p = ground (arith, fit_pointer-ge n (behind a c) cs)

taken_size-le :
    (n : ℕ) (c : Cell) (cs : List Cell)
    → fits n c ≡ true
    → (if ltb c.size (n + header_size + heap_align) then c.size else n) ≤ c.size
taken_size-le n c cs e = ground arith

first_fit-Taken :
    (m : Headers) (n a : ℕ) (cs : List Cell) → Chain m a cs → fit_pointer n a cs ≢ 0 → Taken n a cs
unfolding first_fit fit_pointer live
first_fit-Taken m n a [] h p = absurd (p refl)
first_fit-Taken m n a (c ∷ cs) h p = elim (Bool-cases (fits n c)) [
  | inl e ↦ record {
    size = if ltb c.size (n + header_size + heap_align) then c.size else n;
    enough = ground arith;
    fresh = rw e (
        let back : a + header_size - header_size ≡ a = omega arith in
        rw back (ground (arith, live-below (behind a c) a cs)));
    inside =
        rw e (omega arith, omega (arith, taken_size-le n c cs e, Chain-le m (behind a c) cs h.1));
    lives = λ x. rw e (live-split n a x c cs e);
  }
  | inr e ↦
      let rest = first_fit-Taken m n (behind a c) cs h.1 (rw e at p) in
      let far = fit_pointer-ge n (behind a c) cs (rw e at p) in
      record {
        size = rest.size;
        enough = rest.enough;
        fresh = rw e (ground (arith, rest.fresh));
        inside = rw e (omega (arith, far), rest.inside.1);
        lives = λ x. rw e (ground (arith, rest.lives x));
      }
]

-- What a caller gets with the pointer `p`: a block of at least `size` bytes inside the region, where
-- no allocation was; every other allocation stays where it is, with its size.
pub record Fresh (size : ℕ) (cs : List Cell) (p : ℕ) (t : Heap) : Type 0 where
  pub blocks : List Cell
  pub well_formed : IsHeap t blocks
  pub bytes : ℕ
  pub enough : size ≤ bytes
  pub was_free : live heap_base cs (p - header_size) ≡ none
  pub inside : (heap_base + header_size ≤ p) × (p + bytes ≤ heap_end)
  pub lives :
      (x : ℕ)
      → live heap_base blocks x ≡ (if x + header_size == p then some bytes else live heap_base cs x)

-- In a heap whose headers tile the region, a pointer that kmalloc returns for a non-zero size that
-- does not overflow when rounded up is to a block of at least that size, inside the region, where
-- no allocation was, and no other allocation is moved or resized.
pub kmalloc-Fresh :
    (h : Heap) (cs : List Cell) (size p : ℕ) {t : Heap}
    → IsHeap h cs
    → 0 < size
    → size + 15 < 2 ^ 64
    → kmalloc h size ≡ some (p, t)
    → p ≢ 0
    → Fresh size cs p t
kmalloc-Fresh h cs size p {t} v z o e ne =
    let (t', e', v') = kmalloc-first_fit h cs size v z in
    let same : ◌≡◌ {A = ℕ × Heap} (fit_pointer (align_up size) heap_base cs, t') (p, t) =
      eq_of_some (sym e' ∙ e) in
    let got =
      first_fit-Taken h.headers (align_up size) heap_base cs v.chain
        (λ i. ne (sym (ap (λ (r : ℕ × Heap). r.0) same) ∙ i)) in
    subst (λ (r : ℕ × Heap). Fresh size cs r.0 r.1) same
      (record {
        blocks = first_fit (align_up size) cs;
        well_formed = v';
        bytes = got.size;
        enough = omega (arith, got.enough);
        was_free = got.fresh;
        inside = got.inside;
        lives = got.lives;
      })

-- In a heap whose headers tile the region, kfree of a live allocation ends it and no other; the
-- headers stay well formed.
pub kfree-live :
    (h : Heap) (cs : List Cell) (block n : ℕ)
    → IsHeap h cs
    → live heap_base cs block ≡ some n
    → (ds : List Cell) × IsHeap (kfree h (block + header_size)) ds
      × ((x : ℕ) → live heap_base ds x ≡ (if x == block then none else live heap_base cs x))
kfree-live h cs block n v l = (
  free_at block heap_base cs,
  kfree-free_at h cs block v l,
  λ x. live-free_at block heap_base x cs,
)
