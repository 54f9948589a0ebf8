-- ===== src/Vmm/Tests.antt =====
-- Runs of kernel/src/vmm.c on a tree of four tables with one page of a user program.
use reborn_os.Prelude.{
  ℕ, zero, suc, get_or, [], ◌∷◌, Bool-cases, inl, inr, ◌<◌, ◌≡◌, refl, true, false, arith, some,
  ◌==◌, if◌then◌else◌,
}
use reborn_os.Pmm.{Pmm, used}
use reborn_os.Pmm.Bitmap.{Bytes, bitmap_test}
use reborn_os.Pmm.Valid
use reborn_os.Pmm.Valid.{count_free}
use reborn_os.Vmm.Trees.{Tables}
use reborn_os.Vmm.Defs.{Vmm, Memory, vmm_check_range, check_loop, walk_to_leaf}
use reborn_os.Vmm.Access.{Access}

-- The tables at 0x1000, 0x2000, 0x3000 and 0x4000 map 0x8000000000 to page 0x5000, for reading.
abbrev tables : Memory
tables a =
    if a == 0x1008
    then 0x2007
    else if a == 0x2000
    then 0x3007
    else if a == 0x3000
    then 0x4007
    else if a == 0x4000
    then 0x5005
    else 0

-- The first 16 bytes are in the page, for reading only; the next 16 are not.
reads : vmm_check_range tables 0x1000 0x8000000FF0 0x10 false ≡ some true
unfolding vmm_check_range check_loop walk_to_leaf
reads = refl

writes : vmm_check_range tables 0x1000 0x8000000FF0 0x10 true ≡ some false
unfolding vmm_check_range check_loop walk_to_leaf
writes = refl

past_the_page : vmm_check_range tables 0x1000 0x8000000FF0 0x20 false ≡ some false
unfolding vmm_check_range check_loop walk_to_leaf
past_the_page = refl

-- Eight pages, of which page 0 and page 1, an empty PML4, are in use.
abbrev two_used : Pmm
two_used = record { bitmap = 3 ∷ []; bitmap_bits = 8; free_pages = 6; search_hint = 2 }

two_used-Bytes : Bytes (3 ∷ [])
two_used-Bytes = record { byte = small }
  where
    small : (i : ℕ) → get_or (3 ∷ []) i 0 < 256
    small zero = omega arith
    small (suc i) = omega arith

two_used-IsValid : Valid.IsValid two_used
unfolding count_free bitmap_test
two_used-IsValid = record {
  storage = omega arith;
  bytes = two_used-Bytes;
  small = omega arith;
  hint = omega arith;
  counted = refl;
}

abbrev pub empty_tree : Vmm
empty_tree = record { pmm = two_used; memory = λ a. 0; kernel_pml4 = 4096; cr3 = 4096; efer = 0 }

abbrev pub only_root : ℕ → ℕ
only_root p = if p == 1 then 4 else 0

root_used : used two_used 1 ≡ true
unfolding bitmap_test
root_used = refl

two_used-ZeroReserved : Valid.ZeroReserved two_used
unfolding bitmap_test
two_used-ZeroReserved = record { zero_used = λ h. refl }

pub empty_tree-Tables : Tables only_root empty_tree
empty_tree-Tables = record {
  pmm_valid = two_used-IsValid;
  zero_kept = two_used-ZeroReserved;
  in_use = λ b l. elim (Bool-cases (b == 1)) [
    | inl e ↦ (let same : b ≡ 1 = ground arith in rw same root_used)
    | inr e ↦ (let none_there : only_root b ≡ 0 = rw e refl in absurd (omega arith))
  ];
  linked = λ b i l more shared e. cc;
}
