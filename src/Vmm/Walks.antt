-- ===== src/Vmm/Walks.antt =====
-- What a walk of kernel/src/vmm.c meets in a tree of tables.
use reborn_os.Prelude.{
  ℕ, ◌*◌, ◌/◌, ◌<◌, ◌≡◌, ◌≢◌, refl, sym, ap, ◌∙◌, inl, inr, true, false, ◌==◌, arith, Bool-cases,
  ==_ne, subst, some, eq_of_some,
}
use reborn_os.Pmm.{used}
use reborn_os.Vmm.Defs.{
  Vmm, Memory, entry, table_of, is_present, is_huge, walk_to_leaf, pml4_index, pdpt_index, pd_index,
  pt_index,
}
use reborn_os.Vmm.Trees.{Tables}

-- The four tables and entries of a walk that finds the leaf at `b`.
pub record Steps (level : ℕ → ℕ) (m : Memory) (root x b : ℕ) : Type 0 where
  pub c₁ : ℕ
  pub c₂ : ℕ
  pub c₃ : ℕ
  pub levels : (level c₁ ≡ 3) × ((level c₂ ≡ 2) × (level c₃ ≡ 1))
  pub first :
      (is_present (m (entry (root * 4096) (pml4_index x))) ≡ true)
      × (table_of (m (entry (root * 4096) (pml4_index x))) ≡ c₁ * 4096)
  pub second :
      (is_present (m (entry (c₁ * 4096) (pdpt_index x))) ≡ true)
      × (table_of (m (entry (c₁ * 4096) (pdpt_index x))) ≡ c₂ * 4096)
  pub third :
      (is_present (m (entry (c₂ * 4096) (pd_index x))) ≡ true)
      × ((is_huge (m (entry (c₂ * 4096) (pd_index x))) ≡ false)
          × (table_of (m (entry (c₂ * 4096) (pd_index x))) ≡ c₃ * 4096))
  pub last : is_present (m (entry (c₃ * 4096) (pt_index x))) ≡ true
  pub at_leaf : entry (c₃ * 4096) (pt_index x) ≡ b

Steps-walk :
    {level : ℕ → ℕ} {m : Memory} {root x b : ℕ}
    → Steps level m root x b
    → walk_to_leaf m (root * 4096) x ≡ some b
unfolding walk_to_leaf
Steps-walk s =
    rw (s.first.0, s.first.1, s.second.0, s.second.1, s.third.0, s.third.1.0, s.third.1.1, s.last)
      (ap some s.at_leaf)

walk-Steps :
    (level : ℕ → ℕ) (v : Vmm) (root x b : ℕ)
    → Tables level v
    → level root ≡ 4
    → 0 < pml4_index x
    → walk_to_leaf v.memory (root * 4096) x ≡ some b
    → Steps level v.memory root x b
unfolding walk_to_leaf
walk-Steps level v root x b tables top user h =
    let m = v.memory in
    let e₄ = m (entry (root * 4096) (pml4_index x)) in
    let e₃ = m (entry (table_of e₄) (pdpt_index x)) in
    let e₂ = m (entry (table_of e₃) (pd_index x)) in
    let e₁ = m (entry (table_of e₂) (pt_index x)) in
    elim (Bool-cases (is_present e₄)) [
      | inr p ↦ (let stuck = rw p at h in cc)
      | inl p₄ ↦
          (let h₄ = rw p₄ at h in
            let (leaf₄, n₄) =
              tables.linked root (pml4_index x) (omega arith) (omega arith) (λ four. user) p₄ in
            elim (Bool-cases (is_present e₃)) [
              | inr p ↦ (let stuck = rw p at h₄ in cc)
              | inl p₃ ↦
                  (let h₃ = rw p₃ at h₄ in
                    let (leaf₃, n₃) =
                      tables.linked (e₄ / 4096) (pdpt_index x) (omega arith) (omega arith)
                        (λ four. absurd (omega arith)) p₃ in
                    elim (Bool-cases (is_present e₂)) [
                      | inr p ↦ (let stuck = rw p at h₃ in cc)
                      | inl p₂ ↦
                          (let (leaf₂, n₂) =
                              tables.linked (e₃ / 4096) (pd_index x) (omega arith) (omega arith)
                                (λ four. absurd (omega arith)) p₂ in
                            let h₂ = rw (p₂, leaf₂) at h₃ in
                            elim (Bool-cases (is_present e₁)) [
                              | inr p ↦ (let stuck = rw p at h₂ in cc)
                              | inl p₁ ↦
                                  (let h₁ = rw p₁ at h₂ in
                                    record {
                                      c₁ = e₄ / 4096;
                                      c₂ = e₃ / 4096;
                                      c₃ = e₂ / 4096;
                                      levels = (omega arith, (omega arith, omega arith));
                                      first = (p₄, refl);
                                      second = (p₃, refl);
                                      third = (p₂, (leaf₂, refl));
                                      last = p₁;
                                      at_leaf = eq_of_some h₁;
                                    })
                            ])
                    ])
            ])
    ]

-- A walk in memory `m` that keeps each present entry but for the one at `a`, which is in no table
-- above the lowest level, finds the leaf that it found before, if that is not the one at `a`.
module _ (level : ℕ → ℕ) (v : Vmm) (m : Memory) (a : ℕ) (tables : Tables level v)
    (apart : (p : ℕ) → 1 < level p → a / 4096 ≢ p)
    (kept : (x : ℕ)
      → used v.pmm (x / 4096) ≡ true
      → (x == a) ≡ false
      → is_present (v.memory x) ≡ true
      → m x ≡ v.memory x) where
  inner_kept :
      (p k : ℕ)
      → k < 512
      → 1 < level p
      → is_present (v.memory (entry (p * 4096) k)) ≡ true
      → m (entry (p * 4096) k) ≡ v.memory (entry (p * 4096) k)
  inner_kept p k l more e =
      let page : entry (p * 4096) k / 4096 ≡ p = omega arith in
      kept (entry (p * 4096) k) (rw page (tables.in_use p (omega arith)))
        (==_ne (entry (p * 4096) k) a λ same. apart p more (ap (λ q. q / 4096) (sym same) ∙ page)) e

  leaf_kept :
      {root x b : ℕ} (s : Steps level v.memory root x b)
      → (b == a) ≡ false
      → m (entry (s.c₃ * 4096) (pt_index x)) ≡ v.memory (entry (s.c₃ * 4096) (pt_index x))
  leaf_kept {x = x} s ne =
      let page : entry (s.c₃ * 4096) (pt_index x) / 4096 ≡ s.c₃ = omega arith in
      let (l₁, rest) = s.levels in
      let (l₂, l₃) = rest in
      kept (entry (s.c₃ * 4096) (pt_index x)) (rw page (tables.in_use s.c₃ (omega arith)))
        (rw s.at_leaf ne) s.last

  Steps-kept :
      {root x b : ℕ}
      → level root ≡ 4
      → Steps level v.memory root x b
      → (b == a) ≡ false
      → Steps level m root x b
  Steps-kept {root} {x} top s ne =
      let (l₁, rest) = s.levels in
      let (l₂, l₃) = rest in
      let k₄ = inner_kept root (pml4_index x) (omega arith) (omega arith) s.first.0 in
      let k₃ = inner_kept s.c₁ (pdpt_index x) (omega arith) (omega arith) s.second.0 in
      let k₂ = inner_kept s.c₂ (pd_index x) (omega arith) (omega arith) s.third.0 in
      let k₁ = leaf_kept s ne in
      record {
        c₁ = s.c₁;
        c₂ = s.c₂;
        c₃ = s.c₃;
        levels = s.levels;
        first = rw k₄ s.first;
        second = rw k₃ s.second;
        third = rw k₂ s.third;
        last = rw k₁ s.last;
        at_leaf = s.at_leaf;
      }

  pub walk-kept :
      (root x b : ℕ)
      → level root ≡ 4
      → 0 < pml4_index x
      → walk_to_leaf v.memory (root * 4096) x ≡ some b
      → (b == a) ≡ false
      → (walk_to_leaf m (root * 4096) x ≡ some b) × (m b ≡ v.memory b)
  walk-kept root x b top user h ne =
      let s = walk-Steps level v root x b tables top user h in
      (Steps-walk (Steps-kept top s ne), subst (λ q. m q ≡ v.memory q) s.at_leaf (leaf_kept s ne))
