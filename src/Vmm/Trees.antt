-- ===== src/Vmm/Trees.antt =====
-- The trees of page tables of kernel/src/vmm.c, and a step down one.
use reborn_os.Prelude.{ℕ, ◌+◌, ◌*◌, ◌/◌, ◌≤◌, ◌<◌, ◌≡◌, ◌⊎◌, true, false, ◌==◌}
use reborn_os.Prelude.{Outcome, ok, panic}
use reborn_os.Pmm.{used}
use reborn_os.Pmm.Valid
use reborn_os.Pmm.Valid.{ZeroReserved}
use reborn_os.Vmm.Defs.{Vmm, Fault, no_memory, entry, table_of, is_present, is_huge}

-- The page tables, if `level` gives the level of each page that is one, 4 for a PML4, and 0 for the
-- other pages: each is in use, and a present entry of a table above the lowest level, but for entry
-- 0 of a PML4, which all share, leads to a table of the next level.
pub record Tables (level : ℕ → ℕ) (v : Vmm) : Type 0 where
  pub pmm_valid : Valid.IsValid v.pmm
  pub zero_kept : ZeroReserved v.pmm
  pub in_use : (b : ℕ) → 0 < level b → used v.pmm b ≡ true
  pub linked :
      (b i : ℕ)
      → i < 512
      → 1 < level b
      → (level b ≡ 4 → 0 < i)
      → is_present (v.memory (entry (b * 4096) i)) ≡ true
      → (is_huge (v.memory (entry (b * 4096) i)) ≡ false)
        × (level (v.memory (entry (b * 4096) i) / 4096) + 1 ≡ level b)

-- A step down from entry `i` of table `b` that leads to table `c`.
pub record Down (level : ℕ → ℕ) (v : Vmm) (b i c : ℕ) (w : Vmm) (level' : ℕ → ℕ) : Type 0 where
  pub tables : Tables level' w
  pub next : level' c + 1 ≡ level b
  pub levels_kept : (p : ℕ) → 0 < level p → level' p ≡ level p
  pub others_kept : (p : ℕ) → used v.pmm p ≡ true → level p ≡ 0 → level' p ≡ 0
  pub present : is_present (w.memory (entry (b * 4096) i)) ≡ true
  pub no_leaf : is_huge (w.memory (entry (b * 4096) i)) ≡ false
  pub leads_to : table_of (w.memory (entry (b * 4096) i)) ≡ c * 4096
  pub one_page : v.pmm.free_pages ≤ w.pmm.free_pages + 1
  pub pages_kept : (j : ℕ) → used v.pmm j ≡ true → used w.pmm j ≡ true
  pub words_kept :
      (x : ℕ)
      → used v.pmm (x / 4096) ≡ true
      → (is_present (v.memory x) ≡ true)
        ⊎ (level (x / 4096) ≡ 0)
        ⊎ ((x == entry (b * 4096) i) ≡ false)
      → w.memory x ≡ v.memory x

-- What a step down from entry `i` of table `b` comes to.
pub data Leads (level : ℕ → ℕ) (v : Vmm) (b i : ℕ) : Outcome Fault (ℕ × Vmm) → Type 0 where
  no_page : v.pmm.free_pages ≡ 0 → Leads level v b i (panic no_memory)
  leads :
      (c : ℕ) (w : Vmm) (level' : ℕ → ℕ)
      → Down level v b i c w level'
      → Leads level v b i (ok (c * 4096, w))
