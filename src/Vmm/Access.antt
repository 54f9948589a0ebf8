-- ===== src/Vmm/Access.antt =====
-- What the processor lets a user program do with a page, and vmm_check_range of kernel/src/vmm.c.
use reborn_os.Prelude.{
  ℕ, ◌+◌, ◌*◌, ◌/◌, ◌%◌, ◌^◌, ◌≡◌, Bool, true, some, arith, Bool-cases, inl, inr,
}
use reborn_os.Vmm.Defs.{Memory, walk_to_leaf, leaf_allows, is_present, is_huge}
use reborn_os.Vmm.Range.{allowed}

-- The entries that the processor reads for an address at the four levels, from the PML4 down.
module _ (m : Memory) (pml4 a : ℕ) where
  abbrev pub entry_4 : ℕ
  entry_4 = m (pml4 + 8 * ((a / 2 ^ 39) % 512))

  abbrev pub entry_3 : ℕ
  entry_3 = m (entry_4 / 4096 * 4096 + 8 * ((a / 2 ^ 30) % 512))

  abbrev pub entry_2 : ℕ
  entry_2 = m (entry_3 / 4096 * 4096 + 8 * ((a / 2 ^ 21) % 512))

  abbrev pub entry_1 : ℕ
  entry_1 = m (entry_2 / 4096 * 4096 + 8 * ((a / 2 ^ 12) % 512))

-- An entry is present, bit 0, and lets user programs in, bit 2, and, for a write, bit 1.
pub record Grants (need_write : Bool) (e : ℕ) : Type 0 where
  pub present : e % 2 ≡ 1
  pub user : e / 4 % 2 ≡ 1
  pub writable : need_write ≡ true → e / 2 % 2 ≡ 1

-- A user program may read, or write, the byte at an address: each entry down to the page grants it,
-- and the page is one of 4 KiB or, if bit 7 of the third entry is set, of 2 MiB.
pub data Access (m : Memory) (pml4 : ℕ) (need_write : Bool) (a : ℕ) : Type 0 where
  small_page :
      Grants need_write (entry_4 m pml4 a)
      → Grants need_write (entry_3 m pml4 a)
      → entry_3 m pml4 a / 128 % 2 ≡ 0
      → Grants need_write (entry_2 m pml4 a)
      → entry_2 m pml4 a / 128 % 2 ≡ 0
      → Grants need_write (entry_1 m pml4 a)
      → Access m pml4 need_write a
  large_page :
      Grants need_write (entry_4 m pml4 a)
      → Grants need_write (entry_3 m pml4 a)
      → entry_3 m pml4 a / 128 % 2 ≡ 0
      → Grants need_write (entry_2 m pml4 a)
      → entry_2 m pml4 a / 128 % 2 ≡ 1
      → Access m pml4 need_write a

-- An entry that leads to a table leaves the decision to the entries below it, as those that the
-- kernel writes do.
abbrev pub IsOpen : ℕ → Type 0
IsOpen e = (e / 4 % 2 ≡ 1) × (e / 2 % 2 ≡ 1)

-- Page tables whose entries above the pages are open, with no pages of 1 GiB.
pub record OpenTables (m : Memory) (pml4 : ℕ) : Type 0 where
  pub open_4 : (a : ℕ) → entry_4 m pml4 a % 2 ≡ 1 → IsOpen (entry_4 m pml4 a)
  pub open_3 :
      (a : ℕ)
      → entry_4 m pml4 a % 2 ≡ 1
      → entry_3 m pml4 a % 2 ≡ 1
      → IsOpen (entry_3 m pml4 a) × (entry_3 m pml4 a / 128 % 2 ≡ 0)
  pub open_2 :
      (a : ℕ)
      → entry_4 m pml4 a % 2 ≡ 1
      → entry_3 m pml4 a % 2 ≡ 1
      → entry_2 m pml4 a % 2 ≡ 1
      → entry_2 m pml4 a / 128 % 2 ≡ 0
      → IsOpen (entry_2 m pml4 a)

opened : (need_write : Bool) (e : ℕ) → e % 2 ≡ 1 → IsOpen e → Grants need_write e
opened need_write e p (u, w) = record { present = p; user = u; writable = λ asked. w }

leaf-Grants :
    (m : Memory) (need_write : Bool) (at : ℕ)
    → m at % 2 ≡ 1
    → leaf_allows m need_write (some at) ≡ true
    → Grants need_write (m at)
leaf-Grants m need_write at p e = record {
  present = p;
  user = ground arith;
  writable = λ asked. ground arith;
}

pub allowed-Access :
    (m : Memory) (pml4 : ℕ) (need_write : Bool) (a : ℕ)
    → OpenTables m pml4
    → allowed m pml4 need_write a ≡ true
    → Access m pml4 need_write a
unfolding walk_to_leaf
allowed-Access m pml4 need_write a t h = elim (Bool-cases (is_present (entry_4 m pml4 a))) [
  | inr p ↦ (let stuck = rw p at h in cc)
  | inl p₄ ↦ elim (Bool-cases (is_present (entry_3 m pml4 a))) [
    | inr p ↦ (let stuck = rw (p₄, p) at h in cc)
    | inl p₃ ↦ elim (Bool-cases (is_present (entry_2 m pml4 a))) [
      | inr p ↦ (let stuck = rw (p₄, p₃, p) at h in cc)
      | inl p₂ ↦
          (let q₄ : entry_4 m pml4 a % 2 ≡ 1 = ground arith in
            let q₃ : entry_3 m pml4 a % 2 ≡ 1 = ground arith in
            let q₂ : entry_2 m pml4 a % 2 ≡ 1 = ground arith in
            let (o₃, gib) = t.open_3 a q₄ q₃ in
            let g₄ = opened need_write (entry_4 m pml4 a) q₄ (t.open_4 a q₄) in
            let g₃ = opened need_write (entry_3 m pml4 a) q₃ o₃ in
            elim (Bool-cases (is_huge (entry_2 m pml4 a))) [
              | inl big ↦
                  (let k = rw (p₄, p₃, p₂, big) at h in
                    large_page g₄ g₃ gib (leaf-Grants m need_write _ q₂ k) (ground arith))
              | inr fine ↦ elim (Bool-cases (is_present (entry_1 m pml4 a))) [
                | inr p ↦ (let stuck = rw (p₄, p₃, p₂, fine, p) at h in cc)
                | inl p₁ ↦
                    (let k = rw (p₄, p₃, p₂, fine, p₁) at h in
                      let z : entry_2 m pml4 a / 128 % 2 ≡ 0 = ground arith in
                      small_page g₄ g₃ gib
                        (opened need_write (entry_2 m pml4 a) q₂ (t.open_2 a q₄ q₃ q₂ z)) z
                        (leaf-Grants m need_write _ (ground arith) k))
              ]
            ])
    ]
  ]
]
