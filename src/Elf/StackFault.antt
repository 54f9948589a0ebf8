-- ===== src/Elf/StackFault.antt =====
-- elf_handle_stack_fault of kernel/src/elf_loader.c: a stack that grows.
use reborn_os.Prelude.{
  ap, bit_or, ℕ, ◌+◌, ◌*◌, ◌/◌, ◌%◌, ◌≤◌, ◌<◌, ◌≡◌, refl, sym, ◌∙◌, Bool, true, false, ◌&&◌, ◌||◌,
  none, ltb, leb, ◌==◌, if◌then◌else◌, arith, Bool-cases, Option-cases, inl, inr, subst, Outcome,
  ok, panic, ◌>>=◌,
}
use reborn_os.Pmm.{Pmm, pmm_alloc_page, used}
use reborn_os.Pmm.Valid
use reborn_os.Pmm.Valid.{ZeroReserved}
use reborn_os.Pmm.Alloc.{Allocated, granted, exhausted, exhausted_iff, pmm_alloc_page-Allocated}
use reborn_os.Vmm.{Vmm, Fault, no_memory, walk_to_leaf, vmm_page_present, vmm_map_page}
use reborn_os.Vmm.Range.{walk-page}
use reborn_os.Vmm.Access.{Grants}
use reborn_os.Vmm.{table_of, leaf_flags}
use reborn_os.Vmm.Bits.{or-low, or-half}
use reborn_os.Vmm.Trees.{Tables}
use reborn_os.Vmm.Placed.{Placed}
use reborn_os.Vmm.Mapping.{leaf, Mapped, kernel_half, no_room, mapped, vmm_map_page-Mapped}
use reborn_os.Elf.Defs.{Bytes, Space, Reason, paging, grow_stack, elf_handle_stack_fault}
use reborn_os.Elf.Defs

-- A fault on a page of the stack's 64 pages below 0x8010000000 that is not mapped.
pub record MissingStack (fault_addr error_code : ℕ) (s : Space) : Type 0 where
  pub no_protection : error_code % 2 ≡ 0
  pub above_low : 0x800FFC0000 ≤ fault_addr
  pub below_top : fault_addr < 0x8010000000
  pub unmapped : walk_to_leaf s.vmm.memory s.vmm.cr3 fault_addr ≡ none

-- Memory with the page at an address cleared.
abbrev pub cleared : Bytes → ℕ → Bytes
cleared b page o = if leb page o && ltb o (page + 4096) then 0 else b o

-- The stack with one more page: page `n`, which was free, cleared, and mapped for writing at the page
-- of the fault.
pub record Grown (level : ℕ → ℕ) (root fault_addr : ℕ) (s t : Space) : Type 0 where
  pub n : ℕ
  pub pmm : Pmm
  pub a : ℕ
  pub was_free : used s.vmm.pmm n ≡ false
  pub taken : (j : ℕ) → used pmm j ≡ (j == n || used s.vmm.pmm j)
  pub is_mapped :
      Placed level
        (record s.vmm { pmm = pmm })
        root
        (fault_addr / 4096 * 4096)
        a
        (leaf (n * 4096) 1)
        t.vmm
  pub for_writing : Grants true (t.vmm.memory a)
  pub is_cleared : t.bytes ≡ cleared s.bytes (n * 4096)

-- What a fault of a program comes to. Without a reason to grow the stack, or without a free page, the
-- fault is not handled and nothing changes; with fewer than four free pages the kernel may halt.
pub data StackFault (level : ℕ → ℕ) (root fault_addr error_code : ℕ) (s : Space)
    : Outcome Reason (Bool × Space) → Type 0 where
  refused :
      (MissingStack fault_addr error_code s → s.vmm.pmm.free_pages ≡ 0)
      → StackFault level root fault_addr error_code s (ok (false, s))
  grows :
      (t : Space)
      → MissingStack fault_addr error_code s
      → Grown level root fault_addr s t
      → StackFault level root fault_addr error_code s (ok (true, t))
  out_of_pages :
      MissingStack fault_addr error_code s
      → s.vmm.pmm.free_pages < 4
      → StackFault level root fault_addr error_code s (panic (paging no_memory))

-- What flags grant, an entry with them grants.
Grants-bit_or : (a b : ℕ) → Grants true b → Grants true (bit_or a b)
Grants-bit_or a b g =
    let p = g.present in
    let u = g.user in
    let w = g.writable refl in
    let low = or-low a b in
    let half = or-half a b in
    let low₂ = or-low (a / 2) (b / 2) in
    let half₂ = or-half (a / 2) (b / 2) in
    let low₄ = or-low (a / 2 / 2) (b / 2 / 2) in
    let two : b / 2 / 2 % 2 ≡ 1 = omega arith in
    let quarter : bit_or a b / 4 ≡ bit_or (a / 2 / 2) (b / 2 / 2) =
      omega (arith, half, ap (λ k. k / 2) half, half₂) in
    record {
      present = omega arith;
      user = ap (λ k. k % 2) quarter ∙ omega arith;
      writable = λ asked. ap (λ k. k % 2) half ∙ omega arith;
    }

Grants-leaf : (n : ℕ) → Grants true (leaf (n * 4096) 1)
Grants-leaf n =
    Grants-bit_or (table_of (n * 4096)) (leaf_flags 1)
      (record { present = refl; user = refl; writable = λ asked. refl })

-- Sound tables stay sound when a page is taken.
taken-Tables :
    (level : ℕ → ℕ) (v : Vmm) (n : ℕ) (p : Pmm)
    → Tables level v
    → ((j : ℕ) → used p j ≡ (j == n || used v.pmm j))
    → Valid.IsValid p
    → ZeroReserved p
    → Tables level (record v { pmm = p })
taken-Tables level v n p t claimed valid zero = record {
  pmm_valid = valid;
  zero_kept = zero;
  in_use = λ b l. let c = claimed b in let u = t.in_use b l in ground arith;
  linked = t.linked;
}

module _ (level : ℕ → ℕ) (root fault_addr error_code : ℕ) (s : Space) (tables : Tables level s.vmm)
    (top : level root ≡ 4) (current : s.vmm.cr3 ≡ root * 4096) where
  abbrev page_addr : ℕ
  page_addr = fault_addr / 4096 * 4096

  Grown-of :
      (n : ℕ) (p : Pmm) (o : Outcome Fault Vmm)
      → MissingStack fault_addr error_code s
      → used s.vmm.pmm n ≡ false
      → ((j : ℕ) → used p j ≡ (j == n || used s.vmm.pmm j))
      → p.free_pages + 1 ≡ s.vmm.pmm.free_pages
      → Mapped level (record s.vmm { pmm = p }) root page_addr (leaf (n * 4096) 1) o
      → StackFault level root fault_addr error_code s
          (Defs.mapped o (cleared s.bytes (n * 4096)) >>= λ t. ok (true, t))
  Grown-of n p o m free claimed count (kernel_half z) =
      let lo = m.above_low in let hi = m.below_top in absurd (omega arith)
  Grown-of n p o m free claimed count (no_room few) = out_of_pages m (omega arith)
  Grown-of n p o m free claimed count (mapped a w user placed) =
      grows (record { vmm = w; bytes = cleared s.bytes (n * 4096) }) m
        (record {
          n = n;
          pmm = p;
          a = a;
          was_free = free;
          taken = claimed;
          is_mapped = placed;
          for_writing = subst (Grants true) (sym placed.placed) (Grants-leaf n);
          is_cleared = refl;
        })

  -- What grow_stack does if the allocator gives `r`.
  abbrev grown_with : ℕ × Pmm → Outcome Reason (Bool × Space)
  grown_with (page, pmm) =
      if page == 0
      then ok (false, record s { vmm = record s.vmm { pmm = pmm } })
      else (Defs.mapped (vmm_map_page s.vmm.cr3 page_addr page 1 (record s.vmm { pmm = pmm }))
            (cleared s.bytes page)
          >>= λ t. ok (true, t))

  grown_with-StackFault :
      (r : ℕ × Pmm)
      → MissingStack fault_addr error_code s
      → Allocated s.vmm.pmm r
      → StackFault level root fault_addr error_code s (grown_with r)
  grown_with-StackFault r m (granted {t} n (l, ne, free) claimed count (valid, zero, same)) =
      let some_page : (n * 4096 == 0) ≡ false = ground arith in
      let v = record s.vmm { pmm = t } in
      rw some_page (
        Grown-of n t (vmm_map_page s.vmm.cr3 page_addr (n * 4096) 1 v) m free claimed count (
          subst
            (λ c.
              Mapped level v root page_addr (leaf (n * 4096) 1)
                (vmm_map_page c page_addr (n * 4096) 1 v))
            (sym current)
            (vmm_map_page-Mapped level v root page_addr (n * 4096) 1
              (taken-Tables level s.vmm n t tables claimed valid zero) top)))
  grown_with-StackFault r m (exhausted all) =
      refused λ missing. (exhausted_iff tables.pmm_valid (exhausted all)).0 refl

  not_missing :
      (MissingStack fault_addr error_code s → ⊥)
      → StackFault level root fault_addr error_code s (ok (false, s))
  not_missing never = refused λ m. absurd (never m)

  pub elf_handle_stack_fault-StackFault :
      StackFault level root fault_addr error_code s
        (elf_handle_stack_fault fault_addr error_code true s)
  unfolding elf_handle_stack_fault grow_stack vmm_page_present
  elf_handle_stack_fault-StackFault = elim (Bool-cases (error_code % 2 == 1)) [
    | inl e ↦ rw e (not_missing λ m. let z = m.no_protection in ground arith)
    | inr e₁ ↦ elim (Bool-cases (ltb page_addr 0x800FFC0000 || leb 0x8010000000 page_addr)) [
      | inl e ↦
          rw (e₁, e) (not_missing λ m. let lo = m.above_low in let hi = m.below_top in ground arith)
      | inr e₂ ↦ elim (Option-cases (walk_to_leaf s.vmm.memory s.vmm.cr3 page_addr)) [
        | inr (at, e) ↦
            rw (e₁, e₂, e) (not_missing λ m. let u = m.unmapped in let same = one_page in cc)
        | inl e ↦
            rw (e₁, e₂, e)
              (grown_with-StackFault (pmm_alloc_page s.vmm.pmm)
                (record {
                  no_protection = ground arith;
                  above_low = ground arith;
                  below_top = ground arith;
                  unmapped = one_page ∙ e;
                })
                (pmm_alloc_page-Allocated s.vmm.pmm tables.pmm_valid tables.zero_kept))
      ]
    ]
  ]
    where
      one_page :
          walk_to_leaf s.vmm.memory s.vmm.cr3 fault_addr
          ≡ walk_to_leaf s.vmm.memory s.vmm.cr3 page_addr
      one_page =
          walk-page s.vmm.memory s.vmm.cr3 page_addr fault_addr (omega arith) (omega arith)
            (omega arith)
