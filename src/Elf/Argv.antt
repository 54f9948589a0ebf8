-- ===== src/Elf/Argv.antt =====
-- write_argv_blob of kernel/src/elf_loader.c: where the arguments of a program lie.
use reborn_os.Prelude.{
  ℕ, suc, ◌+◌, ◌-◌, ◌*◌, ◌/◌, ◌%◌, ◌^◌, ◌≤◌, ◌<◌, ◌≡◌, refl, ap, subst, ◌∙◌, false, List, [], ◌∷◌,
  length, get_or, ltb, ◌==◌, arith, ◌⊎◌, inl, inr, ok,
}
use reborn_os.Elf.Defs.{
  Bytes, copy, string_bytes, total_string_bytes, string_area, blob_bytes, blob_aligned, argv_loop,
  Blob, write_argv_blob, stack_top, max_args, max_argv_bytes,
}

-- Neither in the strings from `dst` on nor in the pointers from `ptr` on.
abbrev pub Apart : List (List ℕ) → ℕ → ℕ → ℕ → Type 0
Apart argv dst ptr o =
    ((o < dst) ⊎ (dst + total_string_bytes argv ≤ o))
    × ((o < ptr) ⊎ (ptr + (length argv + 1) * 8 ≤ o))

copy-outside :
    (b : Bytes) (dst count o : ℕ) (src : Bytes)
    → (o < dst) ⊎ (dst + count ≤ o)
    → copy b dst count src o ≡ b o
copy-outside b dst count o src (inl h) = ground arith
copy-outside b dst count o src (inr h) = ground arith

copy-inside :
    (b : Bytes) (dst count k : ℕ) (src : Bytes) → k < count → copy b dst count src (dst + k) ≡ src k
copy-inside b dst count k src h = ground (arith, ap src {x = dst + k - dst} {y = k} (omega arith))

-- The bytes of a word, and the buffer after one string and its pointer.
abbrev word_bytes : ℕ → Bytes
word_bytes w k = (w / 256 ^ k) % 256

abbrev with_string : List ℕ → ℕ → Bytes → Bytes
with_string s dst b = copy b dst (string_bytes s) (λ k. get_or s k 0)

abbrev with_pointer : List ℕ → ℕ → ℕ → ℕ → Bytes → Bytes
with_pointer s dst vaddr ptr b = copy (with_string s dst b) ptr 8 (word_bytes vaddr)

narrow :
    (lo n m o : ℕ)
    → (o < lo) ⊎ (lo + (n + m) ≤ o)
    → ((o < lo) ⊎ (lo + n ≤ o)) × ((o < lo + n) ⊎ (lo + n + m ≤ o))
narrow lo n m o (inl h) = (inl h, inl (omega arith))
narrow lo n m o (inr h) = (inr (omega arith), inr (omega arith))

narrow_words :
    (ptr n o : ℕ)
    → (o < ptr) ⊎ (ptr + (suc n + 1) * 8 ≤ o)
    → ((o < ptr) ⊎ (ptr + 8 ≤ o)) × ((o < ptr + 8) ⊎ (ptr + 8 + (n + 1) * 8 ≤ o))
narrow_words ptr n o (inl h) = (inl h, inl (omega arith))
narrow_words ptr n o (inr h) = (inr (omega arith), inr (omega arith))

-- The loop writes the strings and the pointers and nothing else.
argv_loop-outside :
    (argv : List (List ℕ)) (dst vaddr ptr : ℕ) (b : Bytes) (o : ℕ)
    → Apart argv dst ptr o
    → argv_loop argv dst vaddr ptr b o ≡ b o
unfolding argv_loop total_string_bytes
argv_loop-outside [] dst vaddr ptr b o (p, q) = copy-outside b ptr 8 o (word_bytes 0) q
argv_loop-outside (s ∷ argv) dst vaddr ptr b o (p, q) =
    let (p1, p2) = narrow dst (string_bytes s) (total_string_bytes argv) o p in
    let (q1, q2) = narrow_words ptr (length argv) o q in
    argv_loop-outside argv (dst + string_bytes s) (vaddr + string_bytes s) (ptr + 8)
      (with_pointer s dst vaddr ptr b) o (p2, q2)
    ∙ copy-outside (with_string s dst b) ptr 8 o (word_bytes vaddr) q1
    ∙ copy-outside b dst (string_bytes s) o (λ k. get_or s k 0) p1

-- The word at `a` is `w`.
abbrev pub Word : Bytes → ℕ → ℕ → Type 0
Word b a w = (k : ℕ) → k < 8 → b (a + k) ≡ (w / 256 ^ k) % 256

-- From `ptr` on lie the addresses of the strings and a NULL, and from `dst` on, which the program
-- sees at `vaddr`, the strings with their NULs.
abbrev pub Laid : List (List ℕ) → ℕ → ℕ → ℕ → Bytes → Type 0
Laid [] dst vaddr ptr b = Word b ptr 0
Laid (s ∷ argv) dst vaddr ptr b =
    Word b ptr vaddr
    × ((k : ℕ) → k < string_bytes s → b (dst + k) ≡ get_or s k 0)
    × Laid argv (dst + string_bytes s) (vaddr + string_bytes s) (ptr + 8) b

argv_loop-Laid :
    (argv : List (List ℕ)) (dst vaddr ptr : ℕ) (b : Bytes)
    → dst + total_string_bytes argv ≤ ptr
    → Laid argv dst vaddr ptr (argv_loop argv dst vaddr ptr b)
unfolding argv_loop total_string_bytes
argv_loop-Laid [] dst vaddr ptr b h = λ k l. copy-inside b ptr 8 k (word_bytes 0) l
argv_loop-Laid (s ∷ argv) dst vaddr ptr b h = (
  (λ k l.
      argv_loop-outside argv (dst + string_bytes s) (vaddr + string_bytes s) (ptr + 8)
        (with_pointer s dst vaddr ptr b) (ptr + k) (inr (omega arith), inl (omega arith))
      ∙ copy-inside (with_string s dst b) ptr 8 k (word_bytes vaddr) l),
  (λ k l.
      argv_loop-outside argv (dst + string_bytes s) (vaddr + string_bytes s) (ptr + 8)
        (with_pointer s dst vaddr ptr b) (dst + k) (inl (omega arith), inl (omega arith))
      ∙ copy-outside (with_string s dst b) ptr 8 (dst + k) (word_bytes vaddr) (inl (omega arith))
      ∙ copy-inside b dst (string_bytes s) k (λ k. get_or s k 0) l),
  argv_loop-Laid argv (dst + string_bytes s) (vaddr + string_bytes s) (ptr + 8)
      (with_pointer s dst vaddr ptr b) (omega arith),
)

-- What the program finds: the arguments inside its top page, the stack below them.
pub record Passed (phys : ℕ) (argv : List (List ℕ)) (b : Bytes) (r : Blob) : Type 0 where
  pub in_page : (stack_top - 4096 ≤ r.top) × (r.argv_ptr + (length argv + 1) * 8 ≤ stack_top)
  pub aligned : (r.top % 16 ≡ 0) × (r.argv_ptr % 8 ≡ 0)
  pub laid :
      Laid argv
        (phys + (r.top - (stack_top - 4096)))
        r.top
        (phys + (r.argv_ptr - (stack_top - 4096)))
        r.bytes
  pub outside : (o : ℕ) → (o < phys) ⊎ (phys + 4096 ≤ o) → r.bytes o ≡ b o

-- The guards of write_argv_blob let such arguments through.
write_argv_blob-go :
    (phys : ℕ) (argv : List (List ℕ)) (b : Bytes)
    → 0 < length argv
    → length argv ≤ max_args
    → blob_bytes argv ≤ max_argv_bytes
    → write_argv_blob phys (stack_top - 4096) argv b ≡ (
        let vaddr = stack_top - blob_aligned argv in
        let dst = phys + (vaddr - (stack_top - 4096)) in
        ok (record {
          top = vaddr;
          argv_ptr = vaddr + string_area argv;
          bytes = argv_loop argv dst vaddr (dst + string_area argv) b;
        }))
unfolding write_argv_blob
write_argv_blob-go phys argv b some_args few small =
    let e1 : (length argv == 0) ≡ false = ground arith in
    let e2 : ltb max_args (length argv) ≡ false = ground arith in
    let e3 : ltb max_argv_bytes (blob_bytes argv) ≡ false = ground arith in rw (e1, e2, e3) refl

page_apart :
    (phys vaddr n o : ℕ)
    → stack_top - 4096 ≤ vaddr
    → vaddr + n ≤ stack_top
    → (o < phys) ⊎ (phys + 4096 ≤ o)
    → (o < phys + (vaddr - (stack_top - 4096))) ⊎ (phys + (vaddr - (stack_top - 4096)) + n ≤ o)
page_apart phys vaddr n o a b (inl h) = inl (omega arith)
page_apart phys vaddr n o a b (inr h) = inr (omega arith)

-- write_argv_blob of at least one and at most 16 arguments that take at most 3072 bytes puts them
-- with their pointers and a NULL into the top page of the stack and changes no byte of another
-- page; the stack top is below them and a multiple of 16.
pub write_argv_blob-Passed :
    (phys : ℕ) (argv : List (List ℕ)) (b : Bytes)
    → 0 < length argv
    → length argv ≤ max_args
    → blob_bytes argv ≤ max_argv_bytes
    → (r : Blob) × (write_argv_blob phys (stack_top - 4096) argv b ≡ ok r) × Passed phys argv b r
write_argv_blob-Passed phys argv b some_args few small =
    let vaddr = stack_top - blob_aligned argv in
    let dst = phys + (vaddr - (stack_top - 4096)) in
    let r : Blob = record {
      top = vaddr;
      argv_ptr = vaddr + string_area argv;
      bytes = argv_loop argv dst vaddr (dst + string_area argv) b;
    } in
    let same : phys + (vaddr + string_area argv - (stack_top - 4096)) ≡ dst + string_area argv =
      omega arith in
    (
      r,
      write_argv_blob-go phys argv b some_args few small,
      record {
        in_page = (omega arith, omega arith);
        aligned = (omega arith, omega arith);
        laid = rw same (argv_loop-Laid argv dst vaddr (dst + string_area argv) b (omega arith));
        outside = λ o h. argv_loop-outside argv dst vaddr (dst + string_area argv) b o (
          page_apart phys vaddr (total_string_bytes argv) o (omega arith) (omega arith) h,
          subst (λ x. (o < x) ⊎ (x + (length argv + 1) * 8 ≤ o)) same
              (page_apart phys (vaddr + string_area argv) ((length argv + 1) * 8) o (omega arith)
                (omega arith) h),
        );
      },
    )
