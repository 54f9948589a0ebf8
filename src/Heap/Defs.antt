-- ===== src/Heap/Defs.antt =====
-- The headers and the functions of kernel/src/heap.c.
use reborn_os.Prelude.{
  ℕ, zero, suc, ◌+◌, ◌-◌, ◌*◌, ◌/◌, Bool, true, false, ◌&&◌, not, Option, none, some, ltb, leb,
  ◌==◌, if◌then◌else◌, add64, sub64,
}
use reborn_os.Pmm.{Pmm, pmm_reserve_region}

abbrev pub heap_base : ℕ
heap_base = 0x1000000

abbrev pub heap_size : ℕ
heap_size = 16 * 1024 * 1024

abbrev pub heap_end : ℕ
heap_end = heap_base + heap_size

-- `sizeof(heap_block_t)`: a `uint64_t`, an `int` with its padding and a pointer.
abbrev pub header_size : ℕ
header_size = 24

abbrev pub heap_align : ℕ
heap_align = 16

-- `heap_block_t`; `next` is NULL as 0.
pub record Block : Type 0 where
  pub size : ℕ
  pub is_free : Bool
  pub next : ℕ

-- The header at each address.
abbrev pub Headers : Type 0
Headers = ℕ → Block

-- `heap_head`, and the memory that holds the headers.
pub record Heap : Type 0 where
  pub head : ℕ
  pub headers : Headers

abbrev pub update : Headers → ℕ → Block → Headers
update m a b x = if x == a then b else m x

-- heap_init, with the physical allocator that it reserves its region from.
unfoldable pub heap_init : Pmm → Headers → Pmm × Heap
heap_init pmm m = (
  pmm_reserve_region pmm heap_base heap_size,
  record {
    head = heap_base;
    headers =
        update m heap_base (record { size = heap_size - header_size; is_free = true; next = 0 });
  },
)

unfoldable pub split_block : Headers → ℕ → ℕ → Headers
split_block m block size =
    if ltb (m block).size (add64 (add64 size header_size) heap_align)
    then m
    else let remainder = add64 (add64 block header_size) size in
      let m' = update m remainder (record {
        size = sub64 (sub64 (m block).size size) header_size;
        is_free = true;
        next = (m block).next;
      }) in
      update m' block (record (m' block) { size = size; next = remainder })

-- `(size + (HEAP_ALIGN - 1)) & ~(HEAP_ALIGN - 1)` in 64 bits.
abbrev pub align_up : ℕ → ℕ
align_up size = add64 size (heap_align - 1) / heap_align * heap_align

-- The loop of kmalloc from block `b` on, with the rounds left: the pointer it returns and the
-- headers after; `none` if the rounds run out before the list ends.
unfoldable pub kmalloc_loop : ℕ → ℕ → ℕ → Headers → Option (ℕ × Headers)
kmalloc_loop zero size b m = none
kmalloc_loop (suc rounds) size b m =
    let rest = kmalloc_loop rounds size (m b).next m in
    let m' = split_block m b size in
    if b == 0
    then some (0, m)
    else if (m b).is_free && leb size (m b).size
    then some (add64 b header_size, update m' b (record (m' b) { is_free = false }))
    else rest

-- More rounds than the region has room for headers.
abbrev pub max_blocks : ℕ
max_blocks = heap_size / header_size + 2

with_headers : Heap → Option (ℕ × Headers) → Option (ℕ × Heap)
with_headers h none = none
with_headers h (some (p, m)) = some (p, record h { headers = m })

unfoldable pub kmalloc : Heap → ℕ → Option (ℕ × Heap)
unfolding with_headers
kmalloc h size =
    if size == 0
    then some (0, h)
    else with_headers h (kmalloc_loop max_blocks (align_up size) h.head h.headers)

-- The merge of a block with the one after it, if that one is free.
unfoldable pub merge_next : Headers → ℕ → Headers
merge_next m block =
    let next = (m block).next in
    if not (next == 0) && (m next).is_free
    then update m block (record (m block) {
      size = add64 (m block).size (add64 header_size (m next).size);
      next = (m next).next;
    })
    else m

unfoldable pub kfree : Heap → ℕ → Heap
kfree h ptr =
    let block = sub64 ptr header_size in
    let m = update h.headers block (record (h.headers block) { is_free = true }) in
    if ptr == 0 then h else record h { headers = merge_next m block }

-- The loop of heap_free_bytes, with the rounds left.
unfoldable pub free_bytes_loop : ℕ → ℕ → ℕ → Headers → Option ℕ
free_bytes_loop zero b total m = none
free_bytes_loop (suc rounds) b total m =
    let rest =
      free_bytes_loop rounds (m b).next (if (m b).is_free then add64 total (m b).size else total)
        m in
    if b == 0 then some total else rest

unfoldable pub heap_free_bytes : Heap → Option ℕ
heap_free_bytes h = free_bytes_loop max_blocks h.head 0 h.headers
