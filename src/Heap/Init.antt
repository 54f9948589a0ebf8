-- ===== src/Heap/Init.antt =====
-- heap_init of kernel/src/heap.c, and what kmalloc does with a size near 2^64.
use reborn_os.Prelude.{
  ℕ, ◌+◌, ◌-◌, ◌^◌, ◌≤◌, ◌<◌, ◌≡◌, ◌≢◌, refl, Bool, true, false, ◌||◌, some, List, [], ◌∷◌, arith,
  ==_self,
}
use reborn_os.Pmm.{Pmm}
use reborn_os.Pmm.Valid.{IsValid}
use reborn_os.Pmm.Reserve.{Reserved, pmm_reserve_region-Reserved}
use reborn_os.Heap.Defs.{
  Headers, Heap, heap_base, heap_size, header_size, heap_init, kmalloc, align_up,
}
use reborn_os.Heap.Cells.{Cell, cell, behind, IsHeap, fit_pointer}
use reborn_os.Heap.Alloc.{kmalloc-first_fit}

-- From a page allocator that satisfies its invariant, heap_init leaves one free block that fills
-- the region, and takes from the page allocator those of the pages 4096 to 8191 that it tracks:
-- they are in use after it, and every other page is in use exactly if it was.
pub heap_init-IsHeap :
    (pmm : Pmm) (m : Headers)
    → IsValid pmm
    → IsHeap (heap_init pmm m).1 (cell (heap_size - header_size) true ∷ [])
      × Reserved pmm 4096 8192 (heap_init pmm m).0
unfolding heap_init
heap_init-IsHeap pmm m v = (
  record { head_is = refl; chain = (rw (==_self heap_base) refl, refl) },
  pmm_reserve_region-Reserved pmm heap_base heap_size v (omega arith) (omega arith),
)

abbrev pub any_free : List Cell → Bool
any_free [] = false
any_free (c ∷ cs) = c.is_free || any_free cs

fit_pointer-zero : (a : ℕ) (cs : List Cell) → any_free cs ≡ true → fit_pointer 0 a cs ≢ 0
unfolding fit_pointer
fit_pointer-zero a [] h = ground arith
fit_pointer-zero a (c ∷ cs) h = ground (arith, fit_pointer-zero (behind a c) cs)

-- In a heap whose headers tile the region, for each of the 15 largest sizes the rounding wraps to
-- 0: kmalloc then succeeds whenever any block is free, though no block is that large.
pub kmalloc_wraps :
    (h : Heap) (cs : List Cell) (size : ℕ)
    → IsHeap h cs
    → any_free cs ≡ true
    → 2 ^ 64 ≤ size + 15
    → size < 2 ^ 64
    → (p : ℕ) × (t : Heap) × (kmalloc h size ≡ some (p, t)) × (p ≢ 0)
kmalloc_wraps h cs size v f lo hi =
    let zero : align_up size ≡ 0 = omega arith in
    let (t, e, w) = kmalloc-first_fit h cs size v (omega arith) in
    (fit_pointer (align_up size) heap_base cs, t, e, rw zero (fit_pointer-zero heap_base cs f))
