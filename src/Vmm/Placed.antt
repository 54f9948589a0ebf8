-- ===== src/Vmm/Placed.antt =====
-- The tables that vmm_map_page of kernel/src/vmm.c leaves.
use reborn_os.Prelude.{
  ℕ, ◌+◌, ◌*◌, ◌/◌, ◌≤◌, ◌<◌, ◌≡◌, ◌≢◌, refl, sym, ap, ◌∙◌, ◌⊎◌, inl, inr, true, false, ◌==◌, arith,
  ==_ne, ==_self, subst, some,
}
use reborn_os.Pmm.{used}
use reborn_os.Vmm.Defs.{
  Vmm, entry, is_present, is_huge, store, walk_to_leaf, pml4_index, pdpt_index, pd_index, pt_index,
}
use reborn_os.Vmm.Walks.{walk-kept}
use reborn_os.Vmm.Trees.{Tables, Down}

-- A tree of tables after the call, with the leaf at address `a`. Every other leaf that a walk from
-- any PML4 found before, it still finds, as it was.
pub record Placed (level : ℕ → ℕ) (v : Vmm) (root vaddr a value : ℕ) (w : Vmm) : Type 0 where
  pub new_level : ℕ → ℕ
  pub tables : Tables new_level w
  pub levels_kept : (p : ℕ) → 0 < level p → new_level p ≡ level p
  pub found : walk_to_leaf w.memory (root * 4096) vaddr ≡ some a
  pub placed : w.memory a ≡ value
  pub three_pages : v.pmm.free_pages ≤ w.pmm.free_pages + 3
  pub others_found :
      (other x b : ℕ)
      → level other ≡ 4
      → 0 < pml4_index x
      → walk_to_leaf v.memory (other * 4096) x ≡ some b
      → (b == a) ≡ false
      → (walk_to_leaf w.memory (other * 4096) x ≡ some b) × (w.memory b ≡ v.memory b)
  pub words_kept :
      (x : ℕ)
      → used v.pmm (x / 4096) ≡ true
      → ((is_present (v.memory x) ≡ true) × ((x == a) ≡ false)) ⊎ (level (x / 4096) ≡ 0)
      → w.memory x ≡ v.memory x

-- A word of a table lies in a page that is in use.
word_in_use :
    (level : ℕ → ℕ) (v : Vmm) (p k : ℕ)
    → Tables level v
    → 0 < level p
    → k < 512
    → used v.pmm (entry (p * 4096) k / 4096) ≡ true
word_in_use level v p k tables l small =
    let page : entry (p * 4096) k / 4096 ≡ p = omega arith in rw page (tables.in_use p l)

-- The three steps of a call, and the write of the leaf.
module _ (level l₁ l₂ l₃ : ℕ → ℕ) (v w₁ w₂ w₃ : Vmm) (root c₁ c₂ c₃ vaddr value : ℕ)
    (top : level root ≡ 4) (d₁ : Down level v root (pml4_index vaddr) c₁ w₁ l₁)
    (d₂ : Down l₁ w₁ c₁ (pdpt_index vaddr) c₂ w₂ l₂) (d₃ : Down l₂ w₂ c₂ (pd_index vaddr) c₃ w₃ l₃)
    (marked : is_present value ≡ true) where
  abbrev a₄ : ℕ
  a₄ = entry (root * 4096) (pml4_index vaddr)

  abbrev a₃ : ℕ
  a₃ = entry (c₁ * 4096) (pdpt_index vaddr)

  abbrev a₂ : ℕ
  a₂ = entry (c₂ * 4096) (pd_index vaddr)

  abbrev a₁ : ℕ
  a₁ = entry (c₃ * 4096) (pt_index vaddr)

  abbrev final : Vmm
  final = store w₃ a₁ value

  level-root : (l₁ root ≡ 4) × ((l₂ root ≡ 4) × (l₃ root ≡ 4))
  level-root =
      let p = d₁.levels_kept root (omega arith) in
      let q = d₂.levels_kept root (omega arith) in
      let r = d₃.levels_kept root (omega arith) in (omega arith, (omega arith, omega arith))

  level-c₁ : (l₁ c₁ ≡ 3) × ((l₂ c₁ ≡ 3) × (l₃ c₁ ≡ 3))
  level-c₁ =
      let n = d₁.next in
      let q = d₂.levels_kept c₁ (omega arith) in
      let r = d₃.levels_kept c₁ (omega arith) in (omega arith, (omega arith, omega arith))

  level-c₂ : (l₂ c₂ ≡ 2) × (l₃ c₂ ≡ 2)
  level-c₂ =
      let n = d₂.next in
      let c = level-c₁ in let r = d₃.levels_kept c₂ (omega arith) in (omega arith, omega arith)

  level-c₃ : l₃ c₃ ≡ 1
  level-c₃ = let n = d₃.next in let c = level-c₂ in omega arith

  -- A table above the lowest level is not the one that takes the leaf.
  final_word :
      (p k : ℕ)
      → k < 512
      → 1 < l₃ p
      → final.memory (entry (p * 4096) k) ≡ w₃.memory (entry (p * 4096) k)
  final_word p k l more =
      let ne : p ≢ c₃ = λ e. (let q = ap l₃ e in let c = level-c₃ in omega arith) in
      rw (==_ne (entry (p * 4096) k) a₁ (λ e. ne (omega arith))) refl

  final-Tables : Tables l₃ final
  final-Tables = record {
    pmm_valid = d₃.tables.pmm_valid;
    zero_kept = d₃.tables.zero_kept;
    in_use = d₃.tables.in_use;
    linked = λ p k l more shared e.
        let same = final_word p k l more in
        subst (λ y. (is_huge y ≡ false) × (l₃ (y / 4096) + 1 ≡ l₃ p)) (sym same)
          (d₃.tables.linked p k l more shared (subst (λ y. is_present y ≡ true) same e));
  }

  final_a₄ : final.memory a₄ ≡ w₁.memory a₄
  final_a₄ =
      let (r₁, rest) = level-root in
      let (r₂, r₃) = rest in
      let second =
        d₂.words_kept a₄
          (word_in_use l₁ w₁ root (pml4_index vaddr) d₁.tables (omega arith) (omega arith))
          (inl d₁.present) in
      final_word root (pml4_index vaddr) (omega arith) (omega arith)
      ∙ (d₃.words_kept a₄
            (word_in_use l₂ w₂ root (pml4_index vaddr) d₂.tables (omega arith) (omega arith))
            (inl (subst (λ y. is_present y ≡ true) (sym second) d₁.present))
          ∙ second)

  final_a₃ : final.memory a₃ ≡ w₂.memory a₃
  final_a₃ =
      let (r₁, rest) = level-c₁ in
      let (r₂, r₃) = rest in
      final_word c₁ (pdpt_index vaddr) (omega arith) (omega arith)
      ∙ d₃.words_kept a₃
          (word_in_use l₂ w₂ c₁ (pdpt_index vaddr) d₂.tables (omega arith) (omega arith))
          (inl d₂.present)

  final_a₂ : final.memory a₂ ≡ w₃.memory a₂
  final_a₂ = let (r₂, r₃) = level-c₂ in final_word c₂ (pd_index vaddr) (omega arith) (omega arith)

  final_a₁ : final.memory a₁ ≡ value
  final_a₁ = rw (==_self a₁) refl

  final-walk : walk_to_leaf final.memory (root * 4096) vaddr ≡ some a₁
  unfolding walk_to_leaf
  final-walk =
      rw
        (
          final_a₄, d₁.present, d₁.leads_to, final_a₃, d₂.present, d₂.leads_to, final_a₂,
          d₃.present, d₃.no_leaf, d₃.leads_to, final_a₁, marked,
        )
        refl

  final-kept :
      (x : ℕ)
      → used v.pmm (x / 4096) ≡ true
      → ((is_present (v.memory x) ≡ true) × ((x == a₁) ≡ false)) ⊎ (level (x / 4096) ≡ 0)
      → final.memory x ≡ v.memory x
  final-kept x u (inl (p, ne)) =
      let u₁ = d₁.pages_kept (x / 4096) u in
      let u₂ = d₂.pages_kept (x / 4096) u₁ in
      let e₁ = d₁.words_kept x u (inl p) in
      let p₁ : is_present (w₁.memory x) ≡ true = subst (λ y. is_present y ≡ true) (sym e₁) p in
      let e₂ = d₂.words_kept x u₁ (inl p₁) in
      let p₂ : is_present (w₂.memory x) ≡ true = subst (λ y. is_present y ≡ true) (sym e₂) p₁ in
      rw ne (d₃.words_kept x u₂ (inl p₂) ∙ (e₂ ∙ e₁))
  final-kept x u (inr z) =
      let u₁ = d₁.pages_kept (x / 4096) u in
      let u₂ = d₂.pages_kept (x / 4096) u₁ in
      let z₁ = d₁.others_kept (x / 4096) u z in
      let z₂ = d₂.others_kept (x / 4096) u₁ z₁ in
      let z₃ = d₃.others_kept (x / 4096) u₂ z₂ in
      let ne : (x == a₁) ≡ false = ==_ne x a₁ λ e.
        let page : x / 4096 ≡ c₃ = omega arith in
        let same = ap l₃ page in let low = level-c₃ in omega arith in
      rw ne (
        d₃.words_kept x u₂ (inr (inl z₂))
        ∙ (d₂.words_kept x u₁ (inr (inl z₁)) ∙ d₁.words_kept x u (inr (inl z))))

  final-levels : (p : ℕ) → 0 < level p → l₃ p ≡ level p
  final-levels p l =
      let e₁ = d₁.levels_kept p l in
      let e₂ = d₂.levels_kept p (omega arith) in d₃.levels_kept p (omega arith) ∙ (e₂ ∙ e₁)

  -- The leaf is in no table that was above the lowest level.
  leaf_apart : (p : ℕ) → 1 < level p → a₁ / 4096 ≢ p
  leaf_apart p more e =
      let page : c₃ ≡ p = omega arith in
      let low = level-c₃ in
      let l = final-levels p (omega arith) in let same = ap l₃ page in omega arith

  pub final-Placed : Tables level v → Placed level v root vaddr a₁ value final
  final-Placed before = record {
    new_level = l₃;
    tables = final-Tables;
    levels_kept = final-levels;
    found = final-walk;
    placed = final_a₁;
    three_pages =
        let m₁ = d₁.one_page in let m₂ = d₂.one_page in let m₃ = d₃.one_page in omega arith;
    others_found =
        walk-kept level v final.memory a₁ before leaf_apart
          (λ x u ne p. final-kept x u (inl (p, ne)));
    words_kept = final-kept;
  }
