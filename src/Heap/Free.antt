-- ===== src/Heap/Free.antt =====
-- kfree and heap_free_bytes of kernel/src/heap.c on the list of blocks.
use mathlib.Core.Option.{none-ne-some}
use reborn_os.Prelude.{
  ℕ, zero, suc, ◌+◌, ◌≤◌, ◌<◌, ◌≡◌, ◌≢◌, refl, sym, ap, ◌∙◌, subst, true, false, some, List, [],
  ◌∷◌, ◌==◌, add64, sub64, arith, length, Bool-cases, inl, inr, ==_ne,
}
use reborn_os.Heap.Defs.{
  Block, Headers, Heap, update, heap_base, heap_end, header_size, merge_next, kfree,
  free_bytes_loop, heap_free_bytes, max_blocks,
}
use reborn_os.Heap.Cells.{
  Cell, cell, behind, link, Chain, IsHeap, absorb, free_at, live, free_total, Chain-agree, Chain-le,
}

abbrev release : Headers → ℕ → Headers
release m b = merge_next (update m b (record (m b) { is_free = true })) b

release-other : (m : Headers) (b x : ℕ) → x ≢ b → release m b x ≡ m x
unfolding merge_next
release-other m b x h = ground arith

release-last :
    (m : Headers) (a : ℕ) → (m a).next ≡ 0 → release m a a ≡ record (m a) { is_free = true }
unfolding merge_next
release-last m a h = ground arith

release-beside :
    (m : Headers) (a b : ℕ) {c d : Block}
    → m a ≡ c
    → m b ≡ d
    → c.next ≡ b
    → a < b
    → d.is_free ≡ false
    → release m a a ≡ record c { is_free = true }
unfolding merge_next
release-beside m a b e f g l k = ground arith

release-merge :
    (m : Headers) (a b : ℕ) {c d : Block}
    → m a ≡ c
    → m b ≡ d
    → c.next ≡ b
    → a < b
    → d.is_free ≡ true
    → c.size + header_size + d.size ≤ heap_end
    → release m a a
      ≡ record { size = c.size + (header_size + d.size); is_free = true; next = d.next }
unfolding merge_next
release-merge m a b {c} {d} e f g l k n =
    let s : add64 c.size (add64 header_size d.size) ≡ c.size + (header_size + d.size) =
      omega arith in
    ground arith

absorb-free :
    (c d : Cell) (cs : List Cell)
    → d.is_free ≡ true
    → absorb c (d ∷ cs) ≡ cell (c.size + (header_size + d.size)) true ∷ cs
absorb-free c d cs e = ground arith

absorb-used :
    (c d : Cell) (cs : List Cell)
    → d.is_free ≡ false
    → absorb c (d ∷ cs) ≡ cell c.size true ∷ d ∷ cs
absorb-used c d cs e = ground arith

release-Chain :
    (m : Headers) (a : ℕ) (c : Cell) (cs : List Cell)
    → 0 < a
    → Chain m a (c ∷ cs)
    → Chain (release m a) a (absorb c cs)
release-Chain m a c [] p h = (release-last m a (ap (λ (b : Block). b.next) h.0) ∙ rw h.0 refl, h.1)
release-Chain m a c (d ∷ cs) p h = elim (Bool-cases d.is_free) [
  | inl e ↦ subst (Chain (release m a) a) (sym (absorb-free c d cs e)) (
      let same : a + header_size + (c.size + (header_size + d.size)) ≡ behind (behind a c) d =
        omega arith in
      (
        release-merge m a (behind a c) h.0 h.1.0 refl (omega arith) e
              (omega (arith, Chain-le m (behind (behind a c) d) cs h.1.1))
            ∙ rw same refl,
        rw same (
            Chain-agree m (release m a) (behind (behind a c) d) cs
              (λ x l. release-other m a x (λ i. omega arith)) h.1.1),
      ))
  | inr e ↦ subst (Chain (release m a) a) (sym (absorb-used c d cs e)) (
    release-beside m a (behind a c) h.0 h.1.0 refl (omega arith) e,
    Chain-agree m (release m a) (behind a c) (d ∷ cs)
        (λ x l. release-other m a x (λ i. omega arith)) h.1,
  )
]

link-free_at : (p a : ℕ) (cs : List Cell) → link a (free_at p a cs) ≡ link a cs
unfolding free_at
link-free_at p a [] = refl
link-free_at p a (c ∷ []) = ground arith
link-free_at p a (c ∷ d ∷ cs) = ground arith

free_at-Chain :
    (m : Headers) (p a : ℕ) (cs : List Cell) {n : ℕ}
    → 0 < a
    → Chain m a cs
    → live a cs p ≡ some n
    → Chain (release m p) a (free_at p a cs) × (a ≤ p) × (p ≤ heap_end)
unfolding free_at live
free_at-Chain m p a [] q h l = absurd (none-ne-some _ l)
free_at-Chain m p a (c ∷ cs) q h l = elim (Bool-cases (a == p)) [
  | inl e ↦
      (let same : a ≡ p = ground arith in
        rw e (
          subst (λ k. Chain (release m k) a (absorb c cs) × (a ≤ k) × (k ≤ heap_end)) same
            (release-Chain m a c cs q h, omega arith, omega (arith, Chain-le m a (c ∷ cs) h))))
  | inr e ↦
      (let rest = free_at-Chain m p (behind a c) cs (omega arith) h.1 (rw e at l) in
        rw e (
          (
            release-other m p a (ground arith) ∙ h.0 ∙ rw (link-free_at p (behind a c) cs) refl,
            rest.0,
          ),
          omega (arith, rest.1),
          rest.2,
        ))
]

-- In a heap whose headers tile the region, kfree of a live allocation clears its block's flag and
-- merges it with the block behind it if that one is free; the headers again tile the region.
pub kfree-free_at :
    (h : Heap) (cs : List Cell) (block : ℕ) {n : ℕ}
    → IsHeap h cs
    → live heap_base cs block ≡ some n
    → IsHeap (kfree h (block + header_size)) (free_at block heap_base cs)
unfolding kfree
kfree-free_at h cs block v l =
    let r = free_at-Chain h.headers block heap_base cs (omega arith) v.chain l in
    let b : sub64 (block + header_size) header_size ≡ block = omega (arith, r.1, r.2) in
    rw (==_ne (block + header_size) 0 (λ i. omega arith), b)
      (record { head_is = v.head_is ∙ sym (link-free_at block heap_base cs); chain = r.0 })

free_bytes_loop-total :
    (rounds total a : ℕ) (m : Headers) (cs : List Cell)
    → Chain m a cs
    → 0 < a
    → length cs < rounds
    → total ≤ a
    → free_bytes_loop rounds (link a cs) total m ≡ some (total + free_total cs)
unfolding free_bytes_loop free_total
free_bytes_loop-total zero total a m cs h p f t = absurd (omega arith)
free_bytes_loop-total (suc rounds) total a m [] h p f t = ap some (omega arith)
free_bytes_loop-total (suc rounds) total a m (c ∷ cs) h p f t =
    let step : add64 total c.size ≡ total + c.size =
      omega (arith, Chain-le m (behind a c) cs h.1) in
    rw (==_ne a 0 (λ i. omega arith), h.0, step)
      (free_bytes_loop-total rounds _ (behind a c) m cs h.1 (omega arith) (omega arith)
          (ground arith)
        ∙ ap some (ground arith))

-- In a heap whose headers tile the region, heap_free_bytes ends and returns the sum of the sizes
-- of the free blocks.
pub heap_free_bytes-free_total :
    (h : Heap) (cs : List Cell) → IsHeap h cs → heap_free_bytes h ≡ some (free_total cs)
unfolding heap_free_bytes
heap_free_bytes-free_total h cs v = rw v.head_is (
    free_bytes_loop-total max_blocks 0 heap_base h.headers cs v.chain (omega arith)
      (omega (arith, Chain-le h.headers heap_base cs v.chain)) (omega arith)
    ∙ ap some (omega arith))
