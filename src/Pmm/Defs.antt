-- ===== src/Pmm/Defs.antt =====
-- The allocator's state and its operations, from kernel/src/pmm.c.
use reborn_os.Prelude.{
  ℕ, zero, suc, ◌+◌, ◌-◌, ◌/◌, ◌%◌, Bool, ◌||◌, ◌&&◌, not, Option, none, some, List, [], ◌∷◌, ltb,
  leb, ◌==◌, if◌then◌else◌, replicate, add64, sub64, mul64, Outcome, ok, panic,
}
use reborn_os.Pmm.Bitmap.{bitmap_test, bitmap_set, bitmap_clear}

abbrev pub page_size : ℕ
page_size = 4096

pub data Panic : Type 0 where
  no_bitmap_region outside_range double_free : Panic

-- The static variables of pmm.c.
pub record Pmm : Type 0 where
  pub bitmap : List ℕ
  pub bitmap_bits : ℕ
  pub free_pages : ℕ
  pub search_hint : ℕ

abbrev pub used : Pmm → ℕ → Bool
used s bit = bitmap_test s.bitmap bit

-- `bitmap_set(bit); free_pages--;`
unfoldable pub claim : Pmm → ℕ → Pmm
claim s bit = record s { bitmap = bitmap_set s.bitmap bit; free_pages = sub64 s.free_pages 1 }

-- `bitmap_clear(bit); free_pages++;`
unfoldable pub release : Pmm → ℕ → Pmm
release s bit = record s { bitmap = bitmap_clear s.bitmap bit; free_pages = add64 s.free_pages 1 }

-- The bit that round `i` of the scan looks at.
abbrev pub probe : Pmm → ℕ → ℕ
probe s i = add64 s.search_hint i % s.bitmap_bits

-- The scan of pmm_alloc_page with the rounds left; NULL is 0.
unfoldable pub alloc_loop : ℕ → ℕ → Pmm → ℕ × Pmm
alloc_loop zero i s = (0, s)
alloc_loop (suc rounds) i s =
    let bit = probe s i in
    let rest = alloc_loop rounds (i + 1) s in
    if used s bit
    then rest
    else (mul64 bit page_size, record (claim s bit) { search_hint = add64 bit 1 })

unfoldable pub pmm_alloc_page : Pmm → ℕ × Pmm
pmm_alloc_page s = alloc_loop s.bitmap_bits 0 s

unfoldable pub pmm_free_page : Pmm → ℕ → Outcome Panic Pmm
pmm_free_page s addr =
    let bit = addr / page_size in
    if leb s.bitmap_bits bit
    then panic outside_range
    else if used s bit
    then ok (release s bit)
    else panic double_free

-- `if (!bitmap_test(p)) { bitmap_set(p); free_pages--; }`
unfoldable pub claim_if_free : Pmm → ℕ → Pmm
claim_if_free s p = if used s p then s else claim s p

-- The loop of pmm_reserve_region over the pages from `p` on, with the rounds left to `end_page`.
unfoldable pub reserve_loop : ℕ → ℕ → Pmm → Pmm
reserve_loop zero p s = s
reserve_loop (suc rounds) p s =
    let rest = reserve_loop rounds (p + 1) (claim_if_free s p) in
    if ltb p s.bitmap_bits then rest else s

abbrev pub end_page : ℕ → ℕ → ℕ
end_page addr size = sub64 (add64 (add64 addr size) page_size) 1 / page_size

unfoldable pub pmm_reserve_region : Pmm → ℕ → ℕ → Pmm
pmm_reserve_region s addr size =
    let start = addr / page_size in reserve_loop (end_page addr size - start) start s

unfoldable pub pmm_total_pages : Pmm → ℕ
pmm_total_pages s = s.bitmap_bits

unfoldable pub pmm_free_page_count : Pmm → ℕ
pmm_free_page_count s = s.free_pages

-- The fields of an EFI memory descriptor that pmm_init reads.
pub record Descriptor : Type 0 where
  pub kind : ℕ
  pub physical_start : ℕ
  pub number_of_pages : ℕ

abbrev pub type_is_usable : ℕ → Bool
type_is_usable t = (t == 7) || ((t == 3) || (t == 4))

abbrev pub region_end : Descriptor → ℕ
region_end d = add64 d.physical_start (mul64 d.number_of_pages page_size)

abbrev pub first_page : Descriptor → ℕ
first_page d = d.physical_start / page_size

-- Pass 1: the highest end of a usable region.
unfoldable pub highest_from : ℕ → List Descriptor → ℕ
highest_from h [] = h
highest_from h (d ∷ ds) =
    highest_from (if type_is_usable d.kind && ltb h (region_end d) then region_end d else h) ds

-- Pass 2: the first conventional region with room for the bitmap.
unfoldable pub bitmap_region : ℕ → List Descriptor → Option Descriptor
bitmap_region bytes [] = none
bitmap_region bytes (d ∷ ds) =
    if (d.kind == 7) && leb bytes (mul64 d.number_of_pages page_size)
    then some d
    else bitmap_region bytes ds

-- Pass 3: every page of a usable region is cleared.
unfoldable pub release_loop : ℕ → ℕ → Pmm → Pmm
release_loop zero page s = s
release_loop (suc rounds) page s = release_loop rounds (page + 1) (release s page)

unfoldable pub release_usable : List Descriptor → Pmm → Pmm
release_usable [] s = s
release_usable (d ∷ ds) s =
    release_usable ds
      (if type_is_usable d.kind then release_loop d.number_of_pages (first_page d) s else s)

-- Pass 4: the pages of the bitmap itself.
unfoldable pub claim_loop : ℕ → ℕ → Pmm → Pmm
claim_loop zero page s = s
claim_loop (suc rounds) page s = claim_loop rounds (page + 1) (claim_if_free s page)

-- Page 0 last, and the hint.
unfoldable pub reserve_zero : Pmm → Pmm
reserve_zero s = record (if ltb 0 s.bitmap_bits && not (used s 0) then claim s 0 else s) {
  search_hint = 1;
}

abbrev pub bits_of : List Descriptor → ℕ
bits_of map = highest_from 0 map / page_size

abbrev pub bytes_of : ℕ → ℕ
bytes_of bits = (bits + 7) / 8

abbrev pub bitmap_pages : ℕ → ℕ
bitmap_pages bits = (bytes_of bits + page_size - 1) / page_size

-- `memset(bitmap, 0xFF, bitmap_bytes)`
abbrev pub all_used : ℕ → Pmm
all_used bits = record {
  bitmap = replicate (bytes_of bits) 255;
  bitmap_bits = bits;
  free_pages = 0;
  search_hint = 0;
}

unfoldable pub pmm_init : List Descriptor → Outcome Panic Pmm
pmm_init map = elim (bitmap_region (bytes_of (bits_of map)) map) [
  | none ↦ panic no_bitmap_region
  | some region ↦
      let freed = release_usable map (all_used (bits_of map)) in
      ok (reserve_zero (claim_loop (bitmap_pages (bits_of map)) (first_page region) freed))
]
