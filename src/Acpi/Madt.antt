-- ===== src/Acpi/Madt.antt =====
-- The walk over the MADT in kernel/src/acpi.c.
use reborn_os.Prelude.{
  ℕ, zero, suc, ◌+◌, ◌-◌, ◌≤◌, ◌<◌, ◌≡◌, refl, sym, ap, ◌∙◌, true, false, ◌&&◌, Option, some, List,
  [], ◌∷◌, ◌++◌, length, ltb, ◌==◌, if◌then◌else◌, arith, Bool-cases, inl, inr, ◌⊎◌, ◌≢◌, ◌%◌,
  subst,
}
use mathlib.Core.List.{append-nil, append_assoc}
use reborn_os.Elf.{Bytes, field}
use reborn_os.Acpi.Defs.{header_size, table_length, is_processor, apic_id, madt_loop, madt_ids}

-- The entries of the MADT from an address on: each stands behind the one before it, and the list ends
-- with the table, or at an entry whose length is 0.
pub data Entries (m : Bytes) (end : ℕ) : ℕ → List ℕ → Type 0 where
  at_end : {a : ℕ} → end ≤ a → Entries m end a []
  malformed : {a : ℕ} → m (a + 1) ≡ 0 → Entries m end a []
  entry :
      {a : ℕ} {es : List ℕ}
      → a < end
      → 0 < m (a + 1)
      → Entries m end (a + m (a + 1)) es
      → Entries m end a (a ∷ es)

-- The ids of the enabled processors among some entries.
abbrev processors : Bytes → List ℕ → List ℕ
processors m [] = []
processors m (a ∷ es) = if is_processor m a then apic_id m a ∷ processors m es else processors m es

abbrev pub first_ids : ℕ → List ℕ → List ℕ
first_ids zero l = []
first_ids (suc n) [] = []
first_ids (suc n) (x ∷ l) = x ∷ first_ids n l

-- What the walk gives.
record Walked (m : Bytes) (end cursor max_ids : ℕ) (ids : List ℕ) (r : Option (List ℕ))
    : Type 0 where
  entries : List ℕ
  are_entries : Entries m end cursor entries
  returns : r ≡ some (ids ++ first_ids (max_ids - length ids) (processors m entries))

no_more : (ids : List ℕ) (n : ℕ) → ids ≡ ids ++ first_ids n []
no_more ids zero = sym (append-nil ids)
no_more ids (suc n) = sym (append-nil ids)

length_behind : (ids : List ℕ) (x : ℕ) → length (ids ++ (x ∷ [])) ≡ suc (length ids)
length_behind [] x = refl
length_behind (i ∷ ids) x = ap suc (length_behind ids x)

adds_id :
    (m : Bytes) (a max_ids : ℕ) (ids es : List ℕ)
    → (is_processor m a && ltb (length ids) max_ids) ≡ true
    → (ids ++ (apic_id m a ∷ []))
        ++ first_ids (max_ids - length (ids ++ (apic_id m a ∷ []))) (processors m es)
      ≡ ids ++ first_ids (max_ids - length ids) (processors m (a ∷ es))
adds_id m a max_ids ids es h =
    let longer = length_behind ids (apic_id m a) in
    let here : is_processor m a ≡ true = ground arith in
    let room : max_ids - length ids ≡ suc (max_ids - length (ids ++ (apic_id m a ∷ []))) =
      ground (arith, longer) in
    rw (here, room)
      (append_assoc ids (apic_id m a ∷ [])
        (first_ids (max_ids - length (ids ++ (apic_id m a ∷ []))) (processors m es)))

passes_by :
    (m : Bytes) (a max_ids : ℕ) (ids es : List ℕ)
    → (is_processor m a && ltb (length ids) max_ids) ≡ false
    → ids ++ first_ids (max_ids - length ids) (processors m es)
      ≡ ids ++ first_ids (max_ids - length ids) (processors m (a ∷ es))
passes_by m a max_ids ids es h = elim (Bool-cases (is_processor m a)) [
  | inr e ↦ rw e refl
  | inl e ↦ (let full : max_ids - length ids ≡ 0 = ground arith in rw full refl)
]

madt_loop-Walked :
    (rounds : ℕ) (m : Bytes) (cursor end max_ids : ℕ) (ids : List ℕ)
    → end ≤ cursor + rounds
    → Walked m end cursor max_ids ids (madt_loop rounds m cursor end max_ids ids)
unfolding madt_loop
madt_loop-Walked zero m cursor end max_ids ids h =
    let over : ltb cursor end ≡ false = ground arith in
    rw over (record {
      entries = [];
      are_entries = at_end (omega arith);
      returns = ap some (no_more ids (max_ids - length ids));
    })
madt_loop-Walked (suc rounds) m cursor end max_ids ids h = elim (Bool-cases (ltb cursor end)) [
  | inr over ↦
      rw (over, madt_loop)
        (record {
          entries = [];
          are_entries = at_end (ground arith);
          returns = ap some (no_more ids (max_ids - length ids));
        })
  | inl inside ↦ elim (Bool-cases (m (cursor + 1) == 0)) [
    | inl z ↦
        rw (inside, z, madt_loop)
          (record {
            entries = [];
            are_entries = malformed (ground arith);
            returns = ap some (no_more ids (max_ids - length ids));
          })
    | inr nz ↦ elim (Bool-cases (is_processor m cursor && ltb (length ids) max_ids)) [
      | inl adds ↦
          (let r =
              madt_loop-Walked rounds m (cursor + m (cursor + 1)) end max_ids
                (ids ++ (apic_id m cursor ∷ [])) (ground arith) in
            rw (inside, nz, adds, madt_loop)
              (record {
                entries = cursor ∷ r.entries;
                are_entries = entry (ground arith) (ground arith) r.are_entries;
                returns = r.returns ∙ ap some (adds_id m cursor max_ids ids r.entries adds);
              }))
      | inr passes ↦
          (let r =
              madt_loop-Walked rounds m (cursor + m (cursor + 1)) end max_ids ids (ground arith) in
            rw (inside, nz, passes, madt_loop)
              (record {
                entries = cursor ∷ r.entries;
                are_entries = entry (ground arith) (ground arith) r.are_entries;
                returns = r.returns ∙ ap some (passes_by m cursor max_ids ids r.entries passes);
              }))
    ]
  ]
]

-- The ids of the enabled processors among entries: an entry of type 0, a local APIC, whose flags
-- have bit 0 set has its id in byte 3.
pub data Ids (m : Bytes) : List ℕ → List ℕ → Type 0 where
  no_entries : Ids m [] []
  enabled :
      {a : ℕ} {es ids : List ℕ}
      → m a ≡ 0
      → m (a + 4) % 2 ≡ 1
      → Ids m es ids
      → Ids m (a ∷ es) (m (a + 3) ∷ ids)
  other :
      {a : ℕ} {es ids : List ℕ}
      → (m a ≢ 0) ⊎ (m (a + 4) % 2 ≡ 0)
      → Ids m es ids
      → Ids m (a ∷ es) ids

not_enabled : (m : Bytes) (a : ℕ) → is_processor m a ≡ false → (m a ≢ 0) ⊎ (m (a + 4) % 2 ≡ 0)
not_enabled m a e = elim (Bool-cases (m a == 0)) [
  | inl z ↦ inr (ground arith)
  | inr nz ↦ inl (λ z. ground arith)
]

processors-Ids : (m : Bytes) (es : List ℕ) → Ids m es (processors m es)
processors-Ids m [] = no_entries
processors-Ids m (a ∷ es) = elim (Bool-cases (is_processor m a)) [
  | inl e ↦ rw e (enabled (ground arith) (ground arith) (processors-Ids m es))
  | inr e ↦ rw e (other (not_enabled m a e) (processors-Ids m es))
]

-- The walk over the MADT ends within as many rounds as the table has bytes, also where an entry of
-- length 0 would keep it from moving on, and gives the ids of the enabled processors among its
-- entries, in their order, cut to the number that is asked for.
pub madt_ids-Ids :
    (m : Bytes) (madt max_ids : ℕ)
    → (es ids : List ℕ) × Entries m (madt + field 4 m (madt + 4)) (madt + 44) es
      × Ids m es ids
      × (madt_ids m madt max_ids ≡ some (first_ids max_ids ids))
unfolding madt_ids
madt_ids-Ids m madt max_ids =
    let w =
      madt_loop-Walked (table_length m madt) m (madt + header_size + 8) (madt + table_length m madt)
        max_ids [] (omega arith) in
    let whole : max_ids - 0 ≡ max_ids = omega arith in
    let start : madt + header_size + 8 ≡ madt + 44 = omega arith in
    (
      w.entries,
      processors m w.entries,
      subst (λ a. Entries m (madt + table_length m madt) a w.entries) start w.are_entries,
      processors-Ids m w.entries,
      w.returns ∙ ap (λ n. some (first_ids n (processors m w.entries))) whole,
    )
