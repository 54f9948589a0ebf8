-- ===== src/Vmm/Descend.antt =====
-- A step down a tree of page tables, `descend` of kernel/src/vmm.c.
use reborn_os.Prelude.{
  ℕ, ◌+◌, ◌-◌, ◌*◌, ◌/◌, ◌<◌, ◌≡◌, ◌≢◌, refl, sym, ap, ◌∙◌, ◌⊎◌, inl, inr, true, false, ◌||◌, ◌==◌,
  if◌then◌else◌, put, arith, Bool-cases, ==_ne, ==_self, subst,
}
use reborn_os.Prelude.{Outcome, ok, panic, ◌>>=◌}
use reborn_os.Pmm.{Pmm, pmm_alloc_page, used}
use reborn_os.Pmm.Valid
use reborn_os.Pmm.Valid.{ZeroReserved}
use reborn_os.Pmm.Alloc.{Allocated, granted, exhausted, exhausted_iff, pmm_alloc_page-Allocated}
use reborn_os.Vmm.Defs.{
  Vmm, Fault, no_memory, alloc_table, descend, entry, table_of, link_entry, is_present, is_huge,
  clear_page,
}
use reborn_os.Vmm.Bits.{link_entry-page}
use reborn_os.Vmm.Trees.{Tables, Leads, no_page, leads}

module _ (level : ℕ → ℕ) (v : Vmm) (b i : ℕ) (tables : Tables level v) (small : i < 512)
    (inner : 1 < level b) (private : level b ≡ 4 → 0 < i) where
  abbrev at : ℕ
  at = entry (b * 4096) i

  Leads-there : is_present (v.memory at) ≡ true → Leads level v b i (ok (table_of (v.memory at), v))
  Leads-there e =
      let (table, below) = tables.linked b i small inner private e in
      leads (v.memory at / 4096) v level (record {
        tables = tables;
        next = below;
        levels_kept = λ p l. refl;
        others_kept = λ p u z. z;
        present = e;
        no_leaf = table;
        leads_to = refl;
        one_page = omega arith;
        pages_kept = λ j u. u;
        words_kept = λ x u o. refl;
      })

  module _ (n : ℕ) (t : Pmm) (fresh : used v.pmm n ≡ false)
      (claimed : (j : ℕ) → used t j ≡ (j == n || used v.pmm j)) (valid : Valid.IsValid t)
      (zeroed : ZeroReserved t) (count : t.free_pages + 1 ≡ v.pmm.free_pages)
      (absent : is_present (v.memory at) ≡ false) where
    -- The state once page `n` is the table that the entry leads to.
    abbrev extended : Vmm
    extended = record v {
      pmm = t;
      memory = put (clear_page v.memory (n * 4096)) at (link_entry (n * 4096));
    }

    abbrev level_with : ℕ → ℕ
    level_with p = if p == n then level b - 1 else level p

    -- A table is another page.
    other_page : (p : ℕ) → 0 < level p → (p == n) ≡ false
    other_page p l = ==_ne p n λ e.
        let u = tables.in_use p l in
        let h : used v.pmm p ≡ false = subst (λ k. used v.pmm k ≡ false) (sym e) fresh in cc

    level_kept : (p : ℕ) → 0 < level p → level_with p ≡ level p
    level_kept p l = rw (other_page p l) refl

    -- A word of another page, but for the entry, is as it was.
    word_kept :
        (x : ℕ) → (x / 4096 == n) ≡ false → (x == at) ≡ false → extended.memory x ≡ v.memory x
    word_kept x ne na = rw na (ground arith)

    new_entry : link_entry (n * 4096) ≡ n * 4096 + 7
    new_entry = link_entry-page (n * 4096) (omega arith)

    -- The new table is empty.
    word_clear : (k : ℕ) → k < 512 → extended.memory (entry (n * 4096) k) ≡ 0
    word_clear k l =
        let o = other_page b (omega arith) in
        let ne : b ≢ n = λ e. ground arith in
        let na : (entry (n * 4096) k == at) ≡ false =
          ==_ne (entry (n * 4096) k) at (λ e. ground arith) in
        rw na (ground arith)

    -- What is asked of an entry of table `p`.
    abbrev Link : ℕ → ℕ → Type 0
    Link e p = (is_huge e ≡ false) × (level_with (e / 4096) + 1 ≡ level_with p)

    word_new : (x : ℕ) → (x == at) ≡ true → extended.memory x ≡ n * 4096 + 7
    word_new x hit = rw hit new_entry

    new_table : level_with n ≡ level b - 1
    new_table = rw (==_self n) refl

    Link-new : Link (n * 4096 + 7) b
    Link-new =
        let page : (n * 4096 + 7) / 4096 ≡ n = omega arith in
        (ground arith, rw (page, new_table, level_kept b (omega arith)) (omega arith))

    Link-old :
        (p k : ℕ)
        → k < 512
        → 1 < level p
        → (level p ≡ 4 → 0 < k)
        → is_present (v.memory (entry (p * 4096) k)) ≡ true
        → Link (v.memory (entry (p * 4096) k)) p
    Link-old p k l more shared e =
        let (table, below) = tables.linked p k l more shared e in
        (
          table,
          rw
              (
                level_kept (v.memory (entry (p * 4096) k) / 4096) (omega arith),
                level_kept p (omega arith),
              )
              below,
        )

    extended-linked :
        (p k : ℕ)
        → k < 512
        → 1 < level_with p
        → (level_with p ≡ 4 → 0 < k)
        → is_present (extended.memory (entry (p * 4096) k)) ≡ true
        → Link (extended.memory (entry (p * 4096) k)) p
    extended-linked p k l more shared e = elim (Bool-cases (p == n)) [
      | inl new ↦
          (let same : p ≡ n = ground arith in
            let z : extended.memory (entry (p * 4096) k) ≡ 0 =
              subst (λ q. extended.memory (entry (q * 4096) k) ≡ 0) (sym same) (word_clear k l) in
            let none_there : is_present 0 ≡ true = subst (λ y. is_present y ≡ true) z e in cc)
      | inr old ↦ elim (Bool-cases (entry (p * 4096) k == at)) [
        | inl hit ↦
            (let same : p ≡ b = ground arith in
              subst (λ y. Link y p) (sym (word_new (entry (p * 4096) k) hit))
                (subst (λ q. Link (n * 4096 + 7) q) (sym same) Link-new))
        | inr miss ↦
            (let level_same : level_with p ≡ level p = rw old refl in
              let apart : p ≢ n = λ q. ground arith in
              let kept =
                word_kept (entry (p * 4096) k)
                  (==_ne (entry (p * 4096) k / 4096) n (λ q. apart (omega arith))) miss in
              subst (λ y. Link y p) (sym kept)
                (Link-old p k l (subst (λ q. 1 < q) level_same more) (λ q. shared (level_same ∙ q))
                  (subst (λ y. is_present y ≡ true) kept e)))
      ]
    ]

    extended-Tables : Tables level_with extended
    extended-Tables = record {
      pmm_valid = valid;
      zero_kept = zeroed;
      in_use = λ p l.
          let c = claimed p in
          elim (Bool-cases (p == n)) [
            | inl new ↦ c ∙ rw new refl
            | inr old ↦
                (let level_same : level_with p ≡ level p = rw old refl in
                  c ∙ rw old (tables.in_use p (subst (λ q. 0 < q) level_same l)))
          ];
      linked = extended-linked;
    }

    still_there :
        (x : ℕ)
        → x ≡ at
        → (is_present (v.memory x) ≡ true) ⊎ (level (x / 4096) ≡ 0) ⊎ ((x == at) ≡ false)
        → ⊥
    still_there x e (inl p) =
        let q : is_present (v.memory at) ≡ true = subst (λ k. is_present (v.memory k) ≡ true) e p in
        cc
    still_there x e (inr (inl z)) =
        let page : x / 4096 ≡ b = omega arith in
        let q : level b ≡ 0 = subst (λ k. level k ≡ 0) page z in omega arith
    still_there x e (inr (inr ne)) = ground arith

    page_used : (p : ℕ) → used v.pmm p ≡ true → p ≢ n
    page_used p u e =
        let h : used v.pmm p ≡ false = subst (λ q. used v.pmm q ≡ false) (sym e) fresh in cc

    Leads-new : Leads level v b i (ok (n * 4096, extended))
    Leads-new =
        let here = word_new at (==_self at) in
        leads n extended level_with (record {
          tables = extended-Tables;
          next = rw new_table (omega arith);
          levels_kept = level_kept;
          others_kept = λ p u z. rw (==_ne p n λ e. page_used p u e) z;
          present = rw here (ground arith);
          no_leaf = rw here (ground arith);
          leads_to = rw here (omega arith);
          one_page = omega arith;
          pages_kept = λ j u. let c = claimed j in ground arith;
          words_kept = λ x u o.
              word_kept x
                (==_ne (x / 4096) n λ e.
                  let h : used v.pmm (x / 4096) ≡ false =
                    subst (λ q. used v.pmm q ≡ false) (sym e) fresh in
                  cc)
                (==_ne x at λ e. still_there x e o);
        })

-- The state that `descend` ends in if the allocator gives `r`.
abbrev step_with : Vmm → ℕ → ℕ × Pmm → Outcome Fault (ℕ × Vmm)
step_with v a (page, pmm) =
    (if page == 0
      then panic no_memory
      else ok (page, record v { pmm = pmm; memory = clear_page v.memory page }))
    >>= λ (table, w).
        ok (table_of (link_entry table), record w { memory = put w.memory a (link_entry table) })

made :
    (level : ℕ → ℕ) (v : Vmm) (b i : ℕ)
    → Tables level v
    → i < 512
    → 1 < level b
    → (level b ≡ 4 → 0 < i)
    → is_present (v.memory (entry (b * 4096) i)) ≡ false
    → (r : ℕ × Pmm) → Allocated v.pmm r
    → Leads level v b i (step_with v (entry (b * 4096) i) r)
made level v b i tables small inner private e r
      (granted {t} n (l, ne, fresh) claimed count (valid, zeroed, same)) =
    let some_page : (n * 4096 == 0) ≡ false = ground arith in
    let table : table_of (link_entry (n * 4096)) ≡ n * 4096 =
      ap table_of (link_entry-page (n * 4096) (omega arith)) ∙ omega arith in
    rw (some_page, table)
      (Leads-new level v b i tables small inner private n t fresh claimed valid zeroed count e)
made level v b i tables small inner private e r (exhausted all) =
    no_page ((exhausted_iff tables.pmm_valid (exhausted all)).0 refl)

-- A step down a tree of page tables gives the table of the next level that the entry leads to, made
-- if it is missing; every present entry and every page in use that is no table is kept.
pub descend-Leads :
    (level : ℕ → ℕ) (v : Vmm) (b i : ℕ)
    → Tables level v
    → i < 512
    → 1 < level b
    → (level b ≡ 4 → 0 < i)
    → Leads level v b i (descend (entry (b * 4096) i) v)
unfolding descend alloc_table
descend-Leads level v b i tables small inner private =
    elim (Bool-cases (is_present (v.memory (entry (b * 4096) i)))) [
      | inl e ↦ rw e (Leads-there level v b i tables small inner private e)
      | inr e ↦ rw e (
          made level v b i tables small inner private e (pmm_alloc_page v.pmm)
            (pmm_alloc_page-Allocated v.pmm tables.pmm_valid tables.zero_kept))
    ]
