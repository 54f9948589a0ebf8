-- ===== src/Acpi/Tests.antt =====
-- A run of kernel/src/acpi.c over a MADT at address 0 with two processors, one of them disabled.
use reborn_os.Prelude.{
  ℕ, ◌+◌, ◌-◌, ◌≡◌, refl, some, List, [], ◌∷◌, get_or, ltb, ◌==◌, if◌then◌else◌,
}
use reborn_os.Elf.{Bytes, field}
use reborn_os.Acpi.Defs.{madt_loop, madt_ids}
use reborn_os.Acpi.Madt.{Entries, Ids, first_ids, madt_ids-Ids}

-- An entry of another type, two local APICs, and one byte of the length field: 44 + 4 + 8 + 8 bytes.
abbrev table : Bytes
table a =
    if a == 4
    then 64
    else if ltb a 44
    then 0
    else get_or (1 ∷ 4 ∷ 0 ∷ 0 ∷ 0 ∷ 8 ∷ 0 ∷ 5 ∷ 1 ∷ 0 ∷ 0 ∷ 0 ∷ 0 ∷ 8 ∷ 1 ∷ 6 ∷ 0 ∷ 0 ∷ 0 ∷ 0 ∷ [])
        (a - 44) 0

madt_ids-Ids_example :
    (es ids : List ℕ) × Entries table (0 + field 4 table (0 + 4)) (0 + 44) es
    × Ids table es ids
    × (madt_ids table 0 8 ≡ some (first_ids 8 ids))
madt_ids-Ids_example = madt_ids-Ids table 0 8

-- Only the enabled one is listed.
enabled : madt_ids table 0 8 ≡ some (5 ∷ [])
unfolding madt_ids madt_loop
enabled = refl
