-- ===== src/Vmm/Mapping.antt =====
-- vmm_map_page of kernel/src/vmm.c.
use reborn_os.Prelude.{ℕ, ◌*◌, ◌<◌, ◌≡◌, inl, inr, true, ◌==◌, bit_or, arith, Bool-cases}
use reborn_os.Prelude.{Outcome, ok, panic, ◌>>=◌}
use reborn_os.Vmm.Defs.{
  Vmm, Fault, no_memory, kernel_slot, descend, entry, table_of, leaf_flags, is_present, store,
  vmm_map_page, pml4_index, pdpt_index, pd_index, pt_index,
}
use reborn_os.Vmm.Bits.{leaf_present}
use reborn_os.Vmm.Placed.{Placed, final-Placed}
use reborn_os.Vmm.Descend.{descend-Leads}
use reborn_os.Vmm.Trees.{Tables, Down, Leads, no_page, leads}

-- The leaf that a call asks for.
abbrev pub leaf : ℕ → ℕ → ℕ
leaf paddr flags = bit_or (table_of paddr) (leaf_flags flags)

-- What vmm_map_page comes to.
pub data Mapped (level : ℕ → ℕ) (v : Vmm) (root vaddr value : ℕ) : Outcome Fault Vmm → Type 0 where
  kernel_half : pml4_index vaddr ≡ 0 → Mapped level v root vaddr value (panic kernel_slot)
  no_room : v.pmm.free_pages < 3 → Mapped level v root vaddr value (panic no_memory)
  mapped :
      (a : ℕ) (w : Vmm)
      → 0 < pml4_index vaddr
      → Placed level v root vaddr a value w
      → Mapped level v root vaddr value (ok w)

module _ (level : ℕ → ℕ) (v : Vmm) (root vaddr value : ℕ) (top : level root ≡ 4)
    (before : Tables level v) (user_half : 0 < pml4_index vaddr)
    (marked : is_present value ≡ true) where
  Mapped-third :
      (l₁ l₂ : ℕ → ℕ) (w₁ w₂ : Vmm) (c₁ c₂ : ℕ)
      → Down level v root (pml4_index vaddr) c₁ w₁ l₁
      → Down l₁ w₁ c₁ (pdpt_index vaddr) c₂ w₂ l₂
      → (o : Outcome Fault (ℕ × Vmm)) → Leads l₂ w₂ c₂ (pd_index vaddr) o
      → Mapped level v root vaddr value
          (o >>= λ (pt, c). ok (store c (entry pt (pt_index vaddr)) value))
  Mapped-third l₁ l₂ w₁ w₂ c₁ c₂ d₁ d₂ o (no_page z) =
      let m₁ = d₁.one_page in let m₂ = d₂.one_page in no_room (omega arith)
  Mapped-third l₁ l₂ w₁ w₂ c₁ c₂ d₁ d₂ o (leads c₃ w₃ l₃ d₃) =
      mapped (entry (c₃ * 4096) (pt_index vaddr))
        (store w₃ (entry (c₃ * 4096) (pt_index vaddr)) value) user_half
        (final-Placed level l₁ l₂ l₃ v w₁ w₂ w₃ root c₁ c₂ c₃ vaddr value top d₁ d₂ d₃ marked
          before)

  Mapped-second :
      (l₁ : ℕ → ℕ) (w₁ : Vmm) (c₁ : ℕ)
      → Down level v root (pml4_index vaddr) c₁ w₁ l₁
      → (o : Outcome Fault (ℕ × Vmm)) → Leads l₁ w₁ c₁ (pdpt_index vaddr) o
      → Mapped level v root vaddr value (
          o >>= λ (pd, b). descend (entry pd (pd_index vaddr)) b >>= λ (pt, c).
          ok (store c (entry pt (pt_index vaddr)) value))
  Mapped-second l₁ w₁ c₁ d₁ o (no_page z) = let m₁ = d₁.one_page in no_room (omega arith)
  Mapped-second l₁ w₁ c₁ d₁ o (leads c₂ w₂ l₂ d₂) =
      let n₁ = d₁.next in
      let n₂ = d₂.next in
      Mapped-third l₁ l₂ w₁ w₂ c₁ c₂ d₁ d₂ (descend (entry (c₂ * 4096) (pd_index vaddr)) w₂) (
        descend-Leads l₂ w₂ c₂ (pd_index vaddr) d₂.tables (omega arith) (omega arith)
          (λ e. absurd (omega arith)))

  Mapped-first :
      (o : Outcome Fault (ℕ × Vmm))
      → Leads level v root (pml4_index vaddr) o
      → Mapped level v root vaddr value (
          o >>= λ (pdpt, a). descend (entry pdpt (pdpt_index vaddr)) a >>= λ (pd, b).
          descend (entry pd (pd_index vaddr)) b >>= λ (pt, c).
          ok (store c (entry pt (pt_index vaddr)) value))
  Mapped-first o (no_page z) = no_room (omega arith)
  Mapped-first o (leads c₁ w₁ l₁ d₁) =
      let n₁ = d₁.next in
      Mapped-second l₁ w₁ c₁ d₁ (descend (entry (c₁ * 4096) (pdpt_index vaddr)) w₁) (
        descend-Leads l₁ w₁ c₁ (pdpt_index vaddr) d₁.tables (omega arith) (omega arith)
          (λ e. absurd (omega arith)))

pub vmm_map_page-Mapped :
    (level : ℕ → ℕ) (v : Vmm) (root vaddr paddr flags : ℕ)
    → Tables level v
    → level root ≡ 4
    → Mapped level v root vaddr (leaf paddr flags) (vmm_map_page (root * 4096) vaddr paddr flags v)
unfolding vmm_map_page
vmm_map_page-Mapped level v root vaddr paddr flags tables top =
    elim (Bool-cases (pml4_index vaddr == 0)) [
      | inl e ↦ rw e (kernel_half (ground arith))
      | inr e ↦
          (let user_half : 0 < pml4_index vaddr = ground arith in
            rw e (
              Mapped-first level v root vaddr (leaf paddr flags) top tables user_half
                (leaf_present paddr flags) (descend (entry (root * 4096) (pml4_index vaddr)) v)
                (descend-Leads level v root (pml4_index vaddr) tables (omega arith) (omega arith)
                  (λ four. user_half))))
    ]
