-- ===== src/Elf/Defs.antt =====
-- The functions of kernel/src/elf_loader.c.
use reborn_os.Prelude.{
  ℕ, zero, suc, ◌+◌, ◌-◌, ◌*◌, ◌/◌, ◌%◌, ◌^◌, Bool, true, false, ◌||◌, ◌&&◌, not, List, [], ◌∷◌,
  length, get_or, ltb, leb, ◌==◌, if◌then◌else◌, add64, sub64, Outcome, ok, panic, ◌>>=◌,
}
use reborn_os.Pmm.{page_size, pmm_alloc_page}
use reborn_os.Vmm.{Vmm, Fault, vmm_map_page, vmm_page_present}

abbrev pub Bytes : Type 0
Bytes = ℕ → ℕ

-- The page tables, and the bytes of the programs' pages.
pub record Space : Type 0 where
  pub vmm : Vmm
  pub bytes : Bytes

pub data Reason : Type 0 where
  too_small bad_magic bad_class past_end too_many_args argv_too_large out_of_memory : Reason
  paging : Fault → Reason

abbrev pub stack_top : ℕ
stack_top = 0x8010000000

abbrev pub stack_pages : ℕ
stack_pages = 1

abbrev pub stack_max_pages : ℕ
stack_max_pages = 64

abbrev pub max_args : ℕ
max_args = 16

abbrev pub max_argv_bytes : ℕ
max_argv_bytes = 3072

abbrev pub page_align_down : ℕ → ℕ
page_align_down x = x / page_size * page_size

abbrev pub page_align_up : ℕ → ℕ
page_align_up x = sub64 (add64 x page_size) 1 / page_size * page_size

-- A little-endian field of `n` bytes.
abbrev pub field : ℕ → Bytes → ℕ → ℕ
field zero b o = 0
field (suc n) b o = b o + 256 * field n b (o + 1)

-- `count` bytes of `src` copied to `dst`.
abbrev pub copy : Bytes → ℕ → ℕ → Bytes → Bytes
copy b dst count src o = if leb dst o && ltb o (dst + count) then src (o - dst) else b o

abbrev pub store_word : Bytes → ℕ → ℕ → Bytes
store_word b a w = copy b a 8 (λ k. (w / 256 ^ k) % 256)

-- `strlen(s) + 1`, and their sum.
abbrev pub string_bytes : List ℕ → ℕ
string_bytes s = length s + 1

unfoldable pub total_string_bytes : List (List ℕ) → ℕ
total_string_bytes [] = 0
total_string_bytes (s ∷ argv) = string_bytes s + total_string_bytes argv

abbrev pub string_area : List (List ℕ) → ℕ
string_area argv = (total_string_bytes argv + 7) / 8 * 8

abbrev pub blob_bytes : List (List ℕ) → ℕ
blob_bytes argv = string_area argv + (length argv + 1) * 8

abbrev pub blob_aligned : List (List ℕ) → ℕ
blob_aligned argv = (blob_bytes argv + 15) / 16 * 16

-- The loop that copies the strings and fills the pointer array, and the NULL behind it.
unfoldable pub argv_loop : List (List ℕ) → ℕ → ℕ → ℕ → Bytes → Bytes
argv_loop [] string_dst string_vaddr ptr b = store_word b ptr 0
argv_loop (s ∷ argv) string_dst string_vaddr ptr b =
    argv_loop argv (string_dst + string_bytes s) (string_vaddr + string_bytes s) (ptr + 8)
      (store_word (copy b string_dst (string_bytes s) (λ k. get_or s k 0)) ptr string_vaddr)

-- What write_argv_blob gives: the stack top, the pointer to the array, and the bytes.
pub record Blob : Type 0 where
  pub top : ℕ
  pub argv_ptr : ℕ
  pub bytes : Bytes

unfoldable pub write_argv_blob : ℕ → ℕ → List (List ℕ) → Bytes → Outcome Reason Blob
write_argv_blob top_page_phys top_page_vaddr argv b =
    let blob_vaddr = stack_top - blob_aligned argv in
    let blob_phys = top_page_phys + (blob_vaddr - top_page_vaddr) in
    if length argv == 0
    then ok (record { top = stack_top; argv_ptr = 0; bytes = b })
    else if ltb max_args (length argv)
    then panic too_many_args
    else if ltb max_argv_bytes (blob_bytes argv)
    then panic argv_too_large
    else ok (record {
      top = blob_vaddr;
      argv_ptr = blob_vaddr + string_area argv;
      bytes = argv_loop argv blob_phys blob_vaddr (blob_phys + string_area argv) b;
    })

-- A zeroed page from the page allocator.
unfoldable pub data_page : Space → Outcome Reason (ℕ × Space)
data_page s =
    let (page, pmm) = pmm_alloc_page s.vmm.pmm in
    if page == 0
    then panic out_of_memory
    else ok (
      page,
      record { vmm = record s.vmm { pmm = pmm }; bytes = copy s.bytes page page_size (λ k. 0) },
    )

abbrev pub mapped : Outcome Fault Vmm → Bytes → Outcome Reason Space
mapped (ok v) b = ok (record { vmm = v; bytes = b })
mapped (panic e) b = panic (paging e)

-- The fields of a program header that the loader reads.
pub record Segment : Type 0 where
  pub p_type : ℕ
  pub p_flags : ℕ
  pub p_offset : ℕ
  pub p_vaddr : ℕ
  pub p_filesz : ℕ
  pub p_memsz : ℕ

abbrev pub segment_at : Bytes → ℕ → Segment
segment_at elf o = record {
  p_type = field 4 elf o;
  p_flags = field 4 elf (o + 4);
  p_offset = field 8 elf (o + 8);
  p_vaddr = field 8 elf (o + 16);
  p_filesz = field 8 elf (o + 32);
  p_memsz = field 8 elf (o + 40);
}

-- `VMM_MAP_WRITE` for PF_W and `VMM_MAP_EXEC` for PF_X.
abbrev pub map_flags : Segment → ℕ
map_flags ph = (if (ph.p_flags / 2) % 2 == 1 then 1 else 0) + (if ph.p_flags % 2 == 1 then 2 else 0)

abbrev pub max_of : ℕ → ℕ → ℕ
max_of a b = if ltb b a then a else b

abbrev pub min_of : ℕ → ℕ → ℕ
min_of a b = if ltb a b then a else b

-- The bytes of one page of a segment: the part of the file that lies on it.
unfoldable pub page_bytes : Bytes → Segment → ℕ → ℕ → Bytes → Bytes
page_bytes elf ph vaddr phys b =
    let from = max_of vaddr ph.p_vaddr in
    let to = min_of (add64 vaddr page_size) (add64 ph.p_vaddr ph.p_filesz) in
    let offset = add64 ph.p_offset (sub64 from ph.p_vaddr) in
    if ltb from to then copy b (phys + (from - vaddr)) (to - from) (λ k. elf (offset + k)) else b

-- The loop over the pages of a segment from `vaddr` on.
unfoldable pub page_loop : ℕ → Bytes → Segment → ℕ → ℕ → Space → Outcome Reason Space
page_loop zero elf ph pml4 vaddr s = ok s
page_loop (suc rounds) elf ph pml4 vaddr s = do
  (phys, t) ← data_page s
  u ←
      mapped (vmm_map_page pml4 vaddr phys (map_flags ph) t.vmm)
        (page_bytes elf ph vaddr phys t.bytes)
  page_loop rounds elf ph pml4 (vaddr + page_size) u

unfoldable pub load_segment : Bytes → ℕ → Segment → ℕ → Space → Outcome Reason Space
load_segment elf elf_size ph pml4 s =
    let start = page_align_down ph.p_vaddr in
    let end = page_align_up (add64 ph.p_vaddr ph.p_memsz) in
    let loaded = page_loop ((end - start) / page_size) elf ph pml4 start s in
    if not (ph.p_type == 1)
    then ok s
    else if ltb elf_size (add64 ph.p_offset ph.p_filesz)
    then panic past_end
    else loaded

-- The loop over the program headers from the one at offset `o` on.
unfoldable pub segment_loop : ℕ → Bytes → ℕ → ℕ → ℕ → Space → Outcome Reason Space
segment_loop zero elf elf_size o pml4 s = ok s
segment_loop (suc rounds) elf elf_size o pml4 s = do
  t ← load_segment elf elf_size (segment_at elf o) pml4 s
  segment_loop rounds elf elf_size (o + 56) pml4 t

-- `elf_process_t`
pub record Process : Type 0 where
  pub entry : ℕ
  pub stack : ℕ
  pub argv_ptr : ℕ
  pub argc : ℕ

abbrev pub header_size : ℕ
header_size = 64

-- The checks of the header.
abbrev pub check_header : Bytes → ℕ → Outcome Reason (Unit {0})
check_header elf elf_size =
    if ltb elf_size header_size
    then panic too_small
    else if not (field 4 elf 0 == 0x464C457F)
    then panic bad_magic
    else if not (elf 4 == 2) || not (field 2 elf 18 == 62)
    then panic bad_class
    else ok tt

-- The one page of the stack, then the arguments.
unfoldable pub elf_load_user_program :
    Bytes → ℕ → ℕ → List (List ℕ) → Space → Outcome Reason (Process × Space)
elf_load_user_program elf elf_size pml4 argv s = do
  checked ← check_header elf elf_size
  t ← segment_loop (field 2 elf 56) elf elf_size (field 8 elf 32) pml4 s
  (phys, u) ← data_page t
  w ← mapped (vmm_map_page pml4 (stack_top - page_size) phys 1 u.vmm) u.bytes
  blob ← write_argv_blob phys (stack_top - page_size) argv w.bytes
  ok (
    record {
      entry = field 8 elf 24;
      stack = blob.top;
      argv_ptr = blob.argv_ptr;
      argc = length argv;
    },
    record w { bytes = blob.bytes },
  )

abbrev pub stack_low : ℕ
stack_low = stack_top - stack_max_pages * page_size

-- The page that a fault on the stack gets.
unfoldable pub grow_stack : ℕ → Space → Outcome Reason (Bool × Space)
grow_stack page_addr s =
    let (page, pmm) = pmm_alloc_page s.vmm.pmm in
    if page == 0 then ok (false, record s { vmm = record s.vmm { pmm = pmm } }) else (do
      t ←
          mapped (vmm_map_page s.vmm.cr3 page_addr page 1 (record s.vmm { pmm = pmm }))
            (copy s.bytes page page_size (λ k. 0))
      ok (true, t))

unfoldable pub elf_handle_stack_fault : ℕ → ℕ → Bool → Space → Outcome Reason (Bool × Space)
elf_handle_stack_fault fault_addr error_code from_ring3 s =
    let page_addr = page_align_down fault_addr in
    if not from_ring3
    then ok (false, s)
    else if error_code % 2 == 1
    then ok (false, s)
    else if ltb page_addr stack_low || leb stack_top page_addr
    then ok (false, s)
    else if vmm_page_present s.vmm.memory s.vmm.cr3 page_addr
    then ok (false, s)
    else grow_stack page_addr s
