-- ===== src/Fat16/FreeChain.antt =====
-- The loop of fat16_write_file in kernel/src/fat16.c that frees the chain of a file that it
-- overwrites.
use reborn_os.Prelude.{
  ℕ, zero, suc, ◌+◌, ◌≤◌, ◌<◌, ◌≡◌, refl, ◌∙◌, true, false, ◌==◌, put, arith, ok, Bool-cases, ◌⊎◌,
  inl, inr, ==_self,
}
use reborn_os.Pmm.Valid.{count_free, count_free-set, count_free-le}
use reborn_os.Fat16.Volume.{in_chain, eoc_min}
use reborn_os.Fat16.Dir.{max_clusters}
use reborn_os.Fat16.File.{free_chain}

-- The entries below the end marks that are not free.
abbrev linked : (ℕ → ℕ) → ℕ
linked fat = count_free (λ x. fat x == 0) eoc_min

-- What freeing the chain from `c` on gives: entries are cleared, the first one among them, and no
-- entry changes in another way.
pub record Cleared (c : ℕ) (fat : ℕ → ℕ) (rounds : ℕ) : Type 0 where
  pub after : ℕ → ℕ
  pub returns : free_chain rounds c fat ≡ ok after
  pub only_clears : (x : ℕ) → (after x ≡ fat x) ⊎ (after x ≡ 0)
  pub first_cleared : in_chain c ≡ true → after c ≡ 0

linked-put :
    (c : ℕ) (fat : ℕ → ℕ)
    → in_chain c ≡ true
    → (fat c == 0) ≡ false
    → linked fat ≡ linked (put fat c 0) + 1
linked-put c fat h e = grind (
  arith,
  count_free-set (λ x. fat x == 0) (λ x. put fat c 0 x == 0) c eoc_min e (λ j. ground arith),
)

free_chain-stop :
    (rounds c : ℕ) (fat : ℕ → ℕ)
    → in_chain c ≡ false
    → 0 < rounds
    → free_chain rounds c fat ≡ ok fat
unfolding free_chain
free_chain-stop zero c fat e h = absurd (omega arith)
free_chain-stop (suc rounds) c fat e h = rw (e, free_chain) refl

free_chain-go :
    (rounds c : ℕ) (fat : ℕ → ℕ)
    → in_chain c ≡ true
    → free_chain (suc rounds) c fat ≡ free_chain rounds (fat c) (put fat c 0)
unfolding free_chain
free_chain-go rounds c fat e = rw (e, free_chain) refl

-- One round in front of the rest.
clear_first :
    (rounds c : ℕ) (fat : ℕ → ℕ)
    → in_chain c ≡ true
    → Cleared (fat c) (put fat c 0) rounds
    → Cleared c fat (suc rounds)
clear_first rounds c fat e r = record {
  after = r.after;
  returns = free_chain-go rounds c fat e ∙ r.returns;
  only_clears = λ x. ground (arith, r.only_clears x);
  first_cleared = λ h. ground (arith, r.only_clears c, ==_self c);
}

stopped : (rounds c : ℕ) (fat : ℕ → ℕ) → in_chain c ≡ false → 0 < rounds → Cleared c fat rounds
stopped rounds c fat e h = record {
  after = fat;
  returns = free_chain-stop rounds c fat e h;
  only_clears = λ x. inl refl;
  first_cleared = λ k. ground (arith, k, e);
}

free_chain-enough : (rounds c : ℕ) (fat : ℕ → ℕ) → linked fat + 2 ≤ rounds → Cleared c fat rounds
free_chain-enough zero c fat h = absurd (omega arith)
free_chain-enough (suc rounds) c fat h = elim (Bool-cases (in_chain c)) [
  | inr e ↦ stopped (suc rounds) c fat e (omega arith)
  | inl e ↦ elim (Bool-cases (fat c == 0)) [
    | inl z ↦
        clear_first rounds c fat e
          (stopped rounds (fat c) (put fat c 0) (ground arith) (omega arith))
    | inr z ↦
        clear_first rounds c fat e
          (free_chain-enough rounds (fat c) (put fat c 0) (omega (arith, linked-put c fat e z)))
  ]
]

-- Whatever the FAT holds, a cycle included, the loop that frees a file's old chain ends within
-- 0x10000 rounds; it clears the file's first cluster, and changes no entry but to 0.
pub free_chain-Cleared : (c : ℕ) (fat : ℕ → ℕ) → Cleared c fat max_clusters
free_chain-Cleared c fat =
    free_chain-enough max_clusters c fat (omega (arith, count_free-le (λ x. fat x == 0) eoc_min))
