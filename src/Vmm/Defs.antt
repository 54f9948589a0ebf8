-- ===== src/Vmm/Defs.antt =====
-- The page tables and the functions of kernel/src/vmm.c.
use reborn_os.Prelude.{
  ℕ, zero, suc, ◌+◌, ◌-◌, ◌*◌, ◌/◌, ◌%◌, ◌^◌, bit_or, Bool, true, false, ◌&&◌, not, Option, none,
  some, ltb, leb, ◌==◌, if◌then◌else◌, put, add64, Outcome, ok, panic, ◌>>=◌,
}
use reborn_os.Pmm.{Pmm, page_size, pmm_alloc_page}

abbrev pub Memory : Type 0
Memory = ℕ → ℕ

pub data Fault : Type 0 where
  no_memory kernel_slot : Fault

-- `kernel_pml4`, physical memory and its allocator, the CR3 register and the EFER register.
pub record Vmm : Type 0 where
  pub pmm : Pmm
  pub memory : Memory
  pub kernel_pml4 : ℕ
  pub cr3 : ℕ
  pub efer : ℕ

-- The flags of an entry.
abbrev pub page_present : ℕ
page_present = 1

abbrev pub page_writable : ℕ
page_writable = 2

abbrev pub page_user : ℕ
page_user = 4

abbrev pub page_huge : ℕ
page_huge = 128

abbrev pub page_nx : ℕ
page_nx = 2 ^ 63

abbrev pub is_present : ℕ → Bool
is_present e = e % 2 == 1

abbrev pub is_writable : ℕ → Bool
is_writable e = (e / 2) % 2 == 1

abbrev pub is_user : ℕ → Bool
is_user e = (e / 4) % 2 == 1

abbrev pub is_huge : ℕ → Bool
is_huge e = (e / 128) % 2 == 1

-- `e & TABLE_ADDR_MASK`
abbrev pub table_of : ℕ → ℕ
table_of e = e / 4096 * 4096

-- The address of entry `i` of a table.
abbrev pub entry : ℕ → ℕ → ℕ
entry table i = table + 8 * i

abbrev pub clear_page : Memory → ℕ → Memory
clear_page m page a = if leb page a && ltb a (page + page_size) then 0 else m a

unfoldable pub alloc_table : Vmm → Outcome Fault (ℕ × Vmm)
alloc_table v =
    let (page, pmm) = pmm_alloc_page v.pmm in
    if page == 0
    then panic no_memory
    else ok (page, record v { pmm = pmm; memory = clear_page v.memory page })

abbrev pub store : Vmm → ℕ → ℕ → Vmm
store v a e = record v { memory = put v.memory a e }

-- `table | PAGE_PRESENT | PAGE_WRITABLE | PAGE_USER`
abbrev pub link_entry : ℕ → ℕ
link_entry table = bit_or (bit_or (bit_or table page_present) page_writable) page_user

abbrev pub huge_page_size : ℕ
huge_page_size = 2 * 1024 * 1024

abbrev pub kernel_exec_limit : ℕ
kernel_exec_limit = 4 * 1024 * 1024

-- The leaf of the identity map at `phys`.
abbrev pub identity_leaf : ℕ → ℕ
identity_leaf phys = bit_or phys (
    if ltb phys kernel_exec_limit
    then bit_or (bit_or (bit_or page_present page_writable) page_huge) page_user
    else bit_or (bit_or (bit_or page_present page_writable) page_huge) page_nx)

-- The inner loop of vmm_init from entry `i` of `pd` on.
unfoldable pub fill_pd : ℕ → ℕ → ℕ → ℕ → Vmm → Vmm
fill_pd zero i gib pd v = v
fill_pd (suc rounds) i gib pd v =
    fill_pd rounds (i + 1) gib pd
      (store v (entry pd i) (identity_leaf (gib * 2 ^ 30 + i * huge_page_size)))

-- The outer loop of vmm_init from `gib` on.
unfoldable pub fill_pdpt : ℕ → ℕ → ℕ → Vmm → Outcome Fault Vmm
fill_pdpt zero gib pdpt v = ok v
fill_pdpt (suc rounds) gib pdpt v = do
  (pd, w) ← alloc_table v
  fill_pdpt rounds (gib + 1) pdpt (fill_pd 512 0 gib pd (store w (entry pdpt gib) (link_entry pd)))

unfoldable pub vmm_init : Vmm → Outcome Fault Vmm
vmm_init v = do
  (pml4, a) ← alloc_table (record v { efer = bit_or v.efer (2 ^ 11) })
  (pdpt, b) ← alloc_table a
  c ← fill_pdpt 4 0 pdpt (store b (entry pml4 0) (link_entry pdpt))
  ok (record c { kernel_pml4 = pml4; cr3 = pml4 })

abbrev pub vmm_kernel_cr3 : Vmm → ℕ
vmm_kernel_cr3 v = v.kernel_pml4

unfoldable pub vmm_load_cr3 : ℕ → Vmm → Vmm
vmm_load_cr3 a v = record v { cr3 = a }

abbrev pub vmm_current_cr3 : Vmm → ℕ
vmm_current_cr3 v = v.cr3

unfoldable pub vmm_create_address_space : Vmm → Outcome Fault (ℕ × Vmm)
vmm_create_address_space v = do
  (pml4, a) ← alloc_table v
  let shared = store a (entry pml4 0) (a.memory (entry a.kernel_pml4 0))
  (pdpt, b) ← alloc_table shared
  (pd, c) ← alloc_table b
  (pt, d) ← alloc_table c
  (private, e) ← alloc_table d
  ok (
    pml4,
    store
        (store (store (store e (entry pt 0) (link_entry private)) (entry pd 0) (link_entry pt))
          (entry pdpt 0) (link_entry pd))
        (entry pml4 1) (link_entry pdpt),
  )

-- The four indices of an address.
abbrev pub pml4_index : ℕ → ℕ
pml4_index a = (a / 2 ^ 39) % 512

abbrev pub pdpt_index : ℕ → ℕ
pdpt_index a = (a / 2 ^ 30) % 512

abbrev pub pd_index : ℕ → ℕ
pd_index a = (a / 2 ^ 21) % 512

abbrev pub pt_index : ℕ → ℕ
pt_index a = (a / 2 ^ 12) % 512

-- The table that the entry at `a` leads to, made if it is missing.
unfoldable pub descend : ℕ → Vmm → Outcome Fault (ℕ × Vmm)
descend a v = if is_present (v.memory a) then ok (table_of (v.memory a), v) else (do
  (page, w) ← alloc_table v
  ok (table_of (link_entry page), store w a (link_entry page)))

-- `VMM_MAP_WRITE` and `VMM_MAP_EXEC`
abbrev pub leaf_flags : ℕ → ℕ
leaf_flags flags =
    let user = bit_or page_present page_user in
    let writable = if flags % 2 == 1 then bit_or user page_writable else user in
    if (flags / 2) % 2 == 1 then writable else bit_or writable page_nx

unfoldable pub vmm_map_page : ℕ → ℕ → ℕ → ℕ → Vmm → Outcome Fault Vmm
vmm_map_page pml4 vaddr paddr flags v = if pml4_index vaddr == 0 then panic kernel_slot else (do
  (pdpt, a) ← descend (entry pml4 (pml4_index vaddr)) v
  (pd, b) ← descend (entry pdpt (pdpt_index vaddr)) a
  (pt, c) ← descend (entry pd (pd_index vaddr)) b
  ok (store c (entry pt (pt_index vaddr)) (bit_or (table_of paddr) (leaf_flags flags))))

-- The address of the leaf of an address.
unfoldable pub walk_to_leaf : Memory → ℕ → ℕ → Option ℕ
walk_to_leaf m pml4 vaddr =
    let e4 = m (entry pml4 (pml4_index vaddr)) in
    let e3 = m (entry (table_of e4) (pdpt_index vaddr)) in
    let at_pd = entry (table_of e3) (pd_index vaddr) in
    let at_pt = entry (table_of (m at_pd)) (pt_index vaddr) in
    if not (is_present e4)
    then none
    else if not (is_present e3)
    then none
    else if not (is_present (m at_pd))
    then none
    else if is_huge (m at_pd)
    then some at_pd
    else if not (is_present (m at_pt))
    then none
    else some at_pt

abbrev pub is_some : Option ℕ → Bool
is_some none = false
is_some (some a) = true

unfoldable pub vmm_page_present : Memory → ℕ → ℕ → Bool
vmm_page_present m pml4 vaddr = is_some (walk_to_leaf m pml4 vaddr)

-- The tests of vmm_check_range on one page.
abbrev pub leaf_allows : Memory → Bool → Option ℕ → Bool
leaf_allows m need_write none = false
leaf_allows m need_write (some a) = is_user (m a) && not (need_write && not (is_writable (m a)))

-- Its loop from `page` on, with the rounds left; `none` if they run out.
unfoldable pub check_loop : ℕ → Memory → ℕ → ℕ → ℕ → Bool → Option Bool
check_loop zero m pml4 page end need_write = none
check_loop (suc rounds) m pml4 page end need_write =
    let rest = check_loop rounds m pml4 (add64 page page_size) end need_write in
    if not (ltb page end)
    then some true
    else if leaf_allows m need_write (walk_to_leaf m pml4 page)
    then rest
    else some false

-- One round for each page that the range meets, and one to end.
abbrev pub check_rounds : ℕ → ℕ → ℕ
check_rounds start end = (end - start + 4095) / 4096 + 1

unfoldable pub vmm_check_range : Memory → ℕ → ℕ → ℕ → Bool → Option Bool
vmm_check_range m pml4 vaddr len need_write =
    let start = vaddr / 4096 * 4096 in
    let end = add64 vaddr len in
    if len == 0
    then some true
    else if ltb end vaddr
    then some false
    else check_loop (check_rounds start end) m pml4 start end need_write
