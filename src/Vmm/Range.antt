-- ===== src/Vmm/Range.antt =====
-- vmm_check_range of kernel/src/vmm.c, which guards the pointers that a system call takes.
use native.Mathlib.Decide.{dec_lt}
use reborn_os.Prelude.{
  ℕ, zero, suc, ◌+◌, ◌*◌, ◌/◌, ◌%◌, ◌^◌, ◌≤◌, ◌<◌, ◌≡◌, ◌↔◌, refl, sym, ap, ◌∙◌, Bool, true, false,
  Option, some, ltb, ◌==◌, add64, arith, Bool-cases, inl, inr,
}
use reborn_os.Vmm.Defs.{
  Memory, walk_to_leaf, leaf_allows, check_loop, check_rounds, vmm_check_range, pml4_index,
  pdpt_index, pd_index, pt_index,
}

-- Whether a user program may access the byte at an address.
abbrev pub allowed : Memory → ℕ → Bool → ℕ → Bool
allowed m pml4 need_write a = leaf_allows m need_write (walk_to_leaf m pml4 a)

-- All bytes of a page have one leaf.
pub walk-page :
    (m : Memory) (pml4 page a : ℕ)
    → page % 4096 ≡ 0
    → page ≤ a
    → a < page + 4096
    → walk_to_leaf m pml4 a ≡ walk_to_leaf m pml4 page
unfolding walk_to_leaf
walk-page m pml4 page a z lo hi =
    let e4 : pml4_index a ≡ pml4_index page = omega arith in
    let e3 : pdpt_index a ≡ pdpt_index page = omega arith in
    let e2 : pd_index a ≡ pd_index page = omega arith in
    let e1 : pt_index a ≡ pt_index page = omega arith in rw (e4, e3, e2, e1) refl

-- What a check of the pages from `page` up to `end` gives.
record Checked (m : Memory) (pml4 page end : ℕ) (need_write : Bool) (r : Option Bool) : Type 0 where
  verdict : Bool
  returns : r ≡ some verdict
  accepts_iff :
      (verdict ≡ true) ↔ ((a : ℕ) → page ≤ a → a < end → allowed m pml4 need_write a ≡ true)

check_loop-Checked :
    (rounds : ℕ) (m : Memory) (pml4 page end : ℕ) (need_write : Bool)
    → page % 4096 ≡ 0
    → end + 4096 ≤ 2 ^ 64
    → end + 4096 ≤ page + 4096 * rounds
    → page < end + 4096
    → Checked m pml4 page end need_write (check_loop rounds m pml4 page end need_write)
unfolding check_loop
check_loop-Checked zero m pml4 page end need_write z h l q = absurd (omega arith)
check_loop-Checked (suc rounds) m pml4 page end need_write z h l q =
    elim (Bool-cases (ltb page end)) [
      | inr e ↦ rw e (record {
        verdict = true;
        returns = refl;
        accepts_iff =
            ((λ u a lo hi. absurd (let k : end ≤ page = ground arith in omega arith)), λ u. refl);
      })
      | inl e ↦ elim (Bool-cases (leaf_allows m need_write (walk_to_leaf m pml4 page))) [
        | inl g ↦
            rw (e, g)
              (let step : add64 page 4096 ≡ page + 4096 = ground arith in
                let r =
                  check_loop-Checked rounds m pml4 (page + 4096) end need_write (omega arith) h
                    (omega arith) (ground arith) in
                rw step (record {
                  verdict = r.verdict;
                  returns = r.returns;
                  accepts_iff = (
                    (λ u a lo hi. elim (dec_lt a (page + 4096)) [
                      | yes k ↦ ap (leaf_allows m need_write) (walk-page m pml4 page a z lo k) ∙ g
                      | no k ↦ r.accepts_iff.0 u a (omega arith) hi
                    ]),
                    λ f. r.accepts_iff.1 (λ a lo hi. f a (omega arith) hi),
                  );
                }))
        | inr g ↦
            rw (e, g)
              (record {
                verdict = false;
                returns = refl;
                accepts_iff = (
                  (λ u. cc),
                  λ u. absurd (let k = u page (omega arith) (ground arith) in ground (arith, k, g)),
                );
              })
      ]
    ]

range-loop :
    (m : Memory) (pml4 vaddr len : ℕ) (need_write : Bool)
    → vaddr + len + 4096 ≤ 2 ^ 64
    → (len == 0) ≡ false
    → vmm_check_range m pml4 vaddr len need_write
      ≡ check_loop
          (check_rounds (vaddr / 4096 * 4096) (vaddr + len))
          m
          pml4
          (vaddr / 4096 * 4096)
          (vaddr + len)
          need_write
unfolding vmm_check_range
range-loop m pml4 vaddr len need_write h e =
    let end : add64 vaddr len ≡ vaddr + len = omega arith in
    let ascends : ltb (vaddr + len) vaddr ≡ false = ground arith in rw (e, end, ascends) refl

-- vmm_check_range returns, for a range that does not reach the last page of the address space, and
-- accepts exactly if each byte of the range lies on a page that is mapped for user programs, and
-- for writing where that is asked.
pub vmm_check_range-allowed :
    (m : Memory) (pml4 vaddr len : ℕ) (need_write : Bool)
    → vaddr + len + 4096 ≤ 2 ^ 64
    → (verdict : Bool) × (vmm_check_range m pml4 vaddr len need_write ≡ some verdict)
      × ((verdict ≡ true)
          ↔ ((a : ℕ) → vaddr ≤ a → a < vaddr + len → allowed m pml4 need_write a ≡ true))
unfolding vmm_check_range
vmm_check_range-allowed m pml4 vaddr len need_write h = elim (Bool-cases (len == 0)) [
  | inl e ↦ rw e (
    true,
    refl,
    ((λ u a lo hi. absurd (let k : len ≡ 0 = ground arith in omega arith)), λ f. refl),
  )
  | inr e ↦
      let start = vaddr / 4096 * 4096 in
      let r =
        check_loop-Checked (check_rounds start (vaddr + len)) m pml4 start (vaddr + len) need_write
          (omega arith) h (omega arith) (omega arith) in
      (
        r.verdict,
        range-loop m pml4 vaddr len need_write h e ∙ r.returns,
        (
          (λ u a lo hi. r.accepts_iff.0 u a (omega arith) hi),
          λ f. r.accepts_iff.1 (λ a lo hi. elim (dec_lt a vaddr) [
            | yes k ↦
                ap (leaf_allows m need_write) (
                  walk-page m pml4 start a (omega arith) lo (omega arith)
                  ∙ sym (walk-page m pml4 start vaddr (omega arith) (omega arith) (omega arith)))
                ∙ f vaddr (omega arith) (ground arith)
            | no k ↦ f a (omega arith) hi
          ]),
        ),
      )
]
