-- ===== src/Pmm/Tests.antt =====
-- Runs of kernel/src/pmm.c: a tracked range of eight pages, and a memory map of 16.
use reborn_os.Prelude.{
  ℕ, zero, suc, ◌/◌, ◌<◌, ◌≡◌, refl, false, ◌||◌, arith, List, [], ◌∷◌, ◌==◌, get_or, ok,
}
use reborn_os.Pmm.Bitmap.{Bytes, bitmap_test, bitmap_set, bitmap_clear}
use reborn_os.Pmm.Defs.{
  Pmm, page_size, pmm_alloc_page, pmm_free_page, pmm_init, Descriptor, alloc_loop, claim, release,
  bitmap_region, highest_from, release_usable, release_loop, claim_loop, claim_if_free,
  reserve_zero,
}
use reborn_os.Pmm.Valid.{IsValid, ZeroReserved, count_free}
use reborn_os.Pmm.Alloc.{Allocated, pmm_alloc_page-Allocated}
use reborn_os.Pmm.Owner.{World, Owned, Reach, here, next, alloc, alloc-not-held}
use reborn_os.Pmm.Init.{Fits, Apart, Booted, pmm_init-Booted}

-- Eight pages, of which page 0 is in use.
abbrev eight : Pmm
eight = record { bitmap = 1 ∷ []; bitmap_bits = 8; free_pages = 7; search_hint = 1 }

one_byte : Bytes (1 ∷ [])
one_byte = record { byte = small }
  where
    small : (i : ℕ) → get_or (1 ∷ []) i 0 < 256
    small zero = omega arith
    small (suc i) = omega arith

eight-IsValid : IsValid eight
unfolding count_free bitmap_test
eight-IsValid = record {
  storage = omega arith;
  bytes = one_byte;
  small = omega arith;
  hint = omega arith;
  counted = refl;
}

eight-ZeroReserved : ZeroReserved eight
unfolding bitmap_test
eight-ZeroReserved = record { zero_used = λ h. refl }

pmm_alloc_page-Allocated_example : Allocated eight (pmm_alloc_page eight)
pmm_alloc_page-Allocated_example = pmm_alloc_page-Allocated eight eight-IsValid eight-ZeroReserved

-- The first allocation gives out page 1, the next page 2.
alloc_twice :
    ((pmm_alloc_page eight).0 ≡ 4096) × ((pmm_alloc_page (pmm_alloc_page eight).1).0 ≡ 8192)
unfolding pmm_alloc_page alloc_loop claim bitmap_test bitmap_set
alloc_twice = (refl, refl)

freed : pmm_free_page eight 0 ≡ ok (release eight 0)
unfolding pmm_free_page bitmap_test
freed = refl

abbrev nobody : World
nobody = record { pmm = eight; held = λ j. false }

nobody-Owned : Owned nobody
nobody-Owned = record {
  valid = eight-IsValid;
  zero_kept = eight-ZeroReserved;
  held_used = λ j h. cc;
  held_inside = λ j h. cc;
  held_nonzero = refl;
}

-- One client holds page 1.
abbrev page_1_held : World
page_1_held = record {
  pmm = (pmm_alloc_page eight).1;
  held = λ j. j == (pmm_alloc_page eight).0 / page_size || false;
}

take_page_1 : Reach nobody page_1_held
take_page_1 = next here (alloc (λ e. omega (arith, alloc_twice.0)))

alloc-not-held_example : page_1_held.held ((pmm_alloc_page page_1_held.pmm).0 / page_size) ≡ false
alloc-not-held_example = alloc-not-held nobody-Owned take_page_1 (λ e. omega (arith, alloc_twice.1))

-- Pages 0 to 15, a hole, and four reserved pages.
abbrev small_map : List Descriptor
small_map =
    record { kind = 7; physical_start = 0; number_of_pages = 16 }
    ∷ record { kind = 0; physical_start = 81920; number_of_pages = 4 }
    ∷ []

small_map-Fits : Fits small_map
small_map-Fits = (omega arith, (omega arith, tt))

small_map-Apart : Apart small_map
small_map-Apart = ((λ j h. refl), ((λ j h. refl), tt))

-- The bitmap takes page 0, which is then not counted twice.
abbrev small_boot : Pmm
small_boot = record { bitmap = 1 ∷ 0 ∷ []; bitmap_bits = 16; free_pages = 15; search_hint = 1 }

small_map-boots : pmm_init small_map ≡ ok small_boot
unfolding pmm_init bitmap_region highest_from release_usable release_loop release claim_loop
    claim_if_free claim reserve_zero bitmap_test bitmap_set bitmap_clear
small_map-boots = refl

pmm_init-Booted_example : Booted small_map small_boot
pmm_init-Booted_example = pmm_init-Booted small_map small_map-Fits small_map-Apart small_map-boots
