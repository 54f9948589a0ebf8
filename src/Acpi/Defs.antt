-- ===== src/Acpi/Defs.antt =====
-- The functions of kernel/src/acpi.c over memory as a map from an address to a byte.
use reborn_os.Prelude.{
  ℕ, zero, suc, ◌+◌, ◌-◌, ◌*◌, ◌/◌, ◌%◌, ◌^◌, Bool, true, false, ◌&&◌, ◌||◌, not, Option, none,
  some, List, [], ◌∷◌, ◌++◌, length, ltb, leb, ◌==◌, if◌then◌else◌, u8, u32, Outcome, ok, panic,
}
use reborn_os.Elf.{Bytes, field}

-- sizeof(sdt_header_t)
abbrev pub header_size : ℕ
header_size = 36

pub data AcpiPanic : Type 0 where
  bad_root_checksum : AcpiPanic

-- The loop of checksum_ok from byte `i` on.
unfoldable pub byte_sum : ℕ → ℕ → Bytes → ℕ → ℕ → ℕ
byte_sum zero i m p sum = sum
byte_sum (suc rounds) i m p sum = byte_sum rounds (i + 1) m p (u8 (sum + m (p + i)))

unfoldable pub checksum_ok : Bytes → ℕ → ℕ → Bool
checksum_ok m p len = byte_sum len 0 m p 0 == 0

-- memcmp() == 0 with a text.
unfoldable pub matches : Bytes → ℕ → List ℕ → Bool
matches m p [] = true
matches m p (c ∷ text) = let rest = matches m (p + 1) text in if m p == c then rest else false

-- "RSD PTR " and "APIC"
abbrev pub rsdp_signature : List ℕ
rsdp_signature = 82 ∷ 83 ∷ 68 ∷ 32 ∷ 80 ∷ 84 ∷ 82 ∷ 32 ∷ []

abbrev pub madt_signature : List ℕ
madt_signature = 65 ∷ 80 ∷ 73 ∷ 67 ∷ []

-- The length field of an sdt_header_t, and those of an rsdp_t.
abbrev pub table_length : Bytes → ℕ → ℕ
table_length m p = field 4 m (p + 4)

abbrev pub is_xsdt : Bytes → ℕ → Bool
is_xsdt m rsdp = leb 2 (m (rsdp + 15)) && checksum_ok m rsdp (field 4 m (rsdp + 20))

abbrev pub root_of : Bytes → ℕ → ℕ
root_of m rsdp = if is_xsdt m rsdp then field 8 m (rsdp + 24) else field 4 m (rsdp + 16)

abbrev pub entry_size : Bool → ℕ
entry_size xsdt = if xsdt then 8 else 4

-- The number of tables; the subtraction wraps in 32 bits.
abbrev pub entry_count : Bytes → ℕ → Bool → ℕ
entry_count m root xsdt = u32 (table_length m root + 2 ^ 32 - header_size) / entry_size xsdt

-- The address in entry `i` of the root table.
abbrev pub table_at : Bytes → ℕ → Bool → ℕ → ℕ
table_at m root xsdt i = field (entry_size xsdt) m (root + header_size + i * entry_size xsdt)

-- The search for the MADT from entry `i` on.
unfoldable pub find_madt : ℕ → ℕ → Bytes → ℕ → Bool → Option ℕ
find_madt zero i m root xsdt = none
find_madt (suc rounds) i m root xsdt =
    let rest = find_madt rounds (i + 1) m root xsdt in
    if matches m (table_at m root xsdt i) madt_signature
    then some (table_at m root xsdt i)
    else rest

-- An enabled local APIC.
abbrev pub is_processor : Bytes → ℕ → Bool
is_processor m cursor = (m cursor == 0) && (m (cursor + 4) % 2 == 1)

abbrev pub apic_id : Bytes → ℕ → ℕ
apic_id m cursor = m (cursor + 3)

-- The walk over the entries of the MADT, with the ids so far; none if the rounds run out.
unfoldable pub madt_loop : ℕ → Bytes → ℕ → ℕ → ℕ → List ℕ → Option (List ℕ)
madt_loop zero m cursor end max_ids ids = if ltb cursor end then none else some ids
madt_loop (suc rounds) m cursor end max_ids ids =
    let added =
      madt_loop rounds m (cursor + m (cursor + 1)) end max_ids (ids ++ (apic_id m cursor ∷ [])) in
    let passed = madt_loop rounds m (cursor + m (cursor + 1)) end max_ids ids in
    if not (ltb cursor end)
    then some ids
    else if m (cursor + 1) == 0
    then some ids
    else if is_processor m cursor && ltb (length ids) max_ids
    then added
    else passed

-- The ids from the MADT: each entry that is passed takes at least one byte.
unfoldable pub madt_ids : Bytes → ℕ → ℕ → Option (List ℕ)
madt_ids m madt max_ids =
    madt_loop (table_length m madt) m (madt + header_size + 8) (madt + table_length m madt) max_ids
      []

abbrev pub ids_of : Bytes → Option ℕ → ℕ → Option (List ℕ)
ids_of m none max_ids = some []
ids_of m (some madt) max_ids = madt_ids m madt max_ids

-- The ids; the result is 1 exactly if there are any.
unfoldable pub acpi_find_local_apic_ids : Bytes → ℕ → ℕ → Outcome AcpiPanic (Option (List ℕ))
acpi_find_local_apic_ids m rsdp max_ids =
    let root = root_of m rsdp in
    let xsdt = is_xsdt m rsdp in
    if rsdp == 0
    then ok (some [])
    else if not (matches m rsdp rsdp_signature) || not (checksum_ok m rsdp 20)
    then ok (some [])
    else if not (checksum_ok m root (table_length m root))
    then panic bad_root_checksum
    else ok (ids_of m (find_madt (entry_count m root xsdt) 0 m root xsdt) max_ids)
