-- ===== src/Heap/Tests.antt =====
-- Runs of kernel/src/heap.c from heap_init on.
use reborn_os.Prelude.{
  ℕ, ◌+◌, ◌-◌, ◌≡◌, refl, true, false, arith, none, some, List, [], ◌∷◌, ◌==◌, if◌then◌else◌,
}
use reborn_os.Pmm.{Pmm, all_used, release}
use reborn_os.Pmm.Valid.{IsValid, release-IsValid}
use reborn_os.Pmm.Init.{all_used-IsValid, all_used-used}
use reborn_os.Pmm.Reserve.{Reserved}
use reborn_os.Heap.Defs.{
  Headers, Heap, heap_base, heap_size, header_size, heap_init, kmalloc, kfree,
}
use reborn_os.Heap.Cells.{Cell, cell, IsHeap, first_fit, fit_pointer, free_at, live}
use reborn_os.Heap.Alloc.{kmalloc-first_fit}
use reborn_os.Heap.Free.{kfree-free_at}
use reborn_os.Heap.Live.{Fresh, kmalloc-Fresh, kfree-live}
use reborn_os.Heap.Init.{heap_init-IsHeap}

-- 8192 pages, all in use but page 5000, which lies in the heap's region.
abbrev pages : Pmm
pages = release (all_used 8192) 5000

pages-IsValid : IsValid pages
pages-IsValid =
    release-IsValid (all_used-IsValid 8192 (omega arith)) 5000 (omega arith)
      (all_used-used 8192 5000 (omega arith))

abbrev no_headers : Headers
no_headers _ = record { size = 0; is_free = false; next = 0 }

heap_init-IsHeap_example :
    IsHeap (heap_init pages no_headers).1 (cell (heap_size - header_size) true ∷ [])
    × Reserved pages 4096 8192 (heap_init pages no_headers).0
heap_init-IsHeap_example = heap_init-IsHeap pages no_headers pages-IsValid

-- The heap after boot: one free block.
abbrev pub boot_heap : Heap
boot_heap = (heap_init pages no_headers).1

abbrev pub one_block : List Cell
one_block = cell (heap_size - header_size) true ∷ []

pub boot_heap-IsHeap : IsHeap boot_heap one_block
boot_heap-IsHeap = (heap_init-IsHeap pages no_headers pages-IsValid).0

kmalloc-first_fit_example :
    (t : Heap) × (kmalloc boot_heap 100 ≡ some (fit_pointer 112 heap_base one_block, t))
    × IsHeap t (first_fit 112 one_block)
kmalloc-first_fit_example = kmalloc-first_fit boot_heap one_block 100 boot_heap-IsHeap (omega arith)

-- The heap after the first kmalloc(100).
abbrev used_heap : Heap
used_heap = (kmalloc-first_fit boot_heap one_block 100 boot_heap-IsHeap (omega arith)).0

abbrev two_blocks : List Cell
two_blocks = cell 112 false ∷ cell (heap_size - header_size - 112 - header_size) true ∷ []

used_heap-IsHeap : IsHeap used_heap two_blocks
unfolding first_fit
used_heap-IsHeap = (kmalloc-first_fit boot_heap one_block 100 boot_heap-IsHeap (omega arith)).2

first_pointer : kmalloc boot_heap 100 ≡ some (heap_base + header_size, used_heap)
unfolding fit_pointer
first_pointer = (kmalloc-first_fit boot_heap one_block 100 boot_heap-IsHeap (omega arith)).1

kmalloc-Fresh_example : Fresh 100 one_block (heap_base + header_size) used_heap
kmalloc-Fresh_example =
    kmalloc-Fresh boot_heap one_block 100 (heap_base + header_size) boot_heap-IsHeap (omega arith)
      (omega arith) first_pointer (λ e. omega arith)

first_live : live heap_base two_blocks heap_base ≡ some 112
unfolding live
first_live = refl

kfree-free_at_example :
    IsHeap (kfree used_heap (heap_base + header_size)) (free_at heap_base heap_base two_blocks)
kfree-free_at_example = kfree-free_at used_heap two_blocks heap_base used_heap-IsHeap first_live

kfree-live_example :
    (ds : List Cell) × IsHeap (kfree used_heap (heap_base + header_size)) ds
    × ((x : ℕ)
        → live heap_base ds x ≡ (if x == heap_base then none else live heap_base two_blocks x))
kfree-live_example = kfree-live used_heap two_blocks heap_base 112 used_heap-IsHeap first_live

-- The merge gives the one block back.
freed_blocks : free_at heap_base heap_base two_blocks ≡ one_block
unfolding free_at
freed_blocks = refl
