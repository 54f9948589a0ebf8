-- ===== src/Syscall/Strings.antt =====
-- copy_user_string of kernel/src/syscall.c: strings out of user memory.
use reborn_os.Prelude.{
  ℕ, ◌+◌, ◌^◌, ◌≤◌, ◌<◌, ◌≡◌, ◌≢◌, sym, ap, ◌∙◌, Bool, true, false, List, length, get_or, arith,
  Outcome, ok, panic,
}
use reborn_os.Vmm.{Memory}
use reborn_os.Vmm
use reborn_os.Vmm.Range.{allowed, vmm_check_range-allowed}
use reborn_os.Syscall.Defs.{
  Kernel, SyscallPanic, bad_string, tables, cr3, passes, user_ptr_valid, user_byte,
}

-- The program may read, or write, the byte at an address.
abbrev pub may_access : Kernel → Bool → ℕ → Bool
may_access k need_write a = allowed (tables k) (cr3 k) need_write a

-- A check that passes covers every byte of its range.
pub user_ptr_valid-may_access :
    (k : Kernel) (ptr len : ℕ) (need_write : Bool)
    → ptr + len + 4096 ≤ 2 ^ 64
    → user_ptr_valid k ptr len need_write ≡ true
    → (i : ℕ) → i < len
    → may_access k need_write (ptr + i) ≡ true
unfolding user_ptr_valid
user_ptr_valid-may_access k ptr len need_write h e i l =
    let (verdict, returns, iff) = vmm_check_range-allowed (tables k) (cr3 k) ptr len need_write h in
    iff.0 (ap passes (sym returns) ∙ e) (ptr + i) (omega arith) (omega arith)

module _ (mmu : Memory → ℕ → ℕ → ℕ) (core : ℕ) (k : Kernel) where
  -- The program may read this byte of a string, and it is not the NUL.
  abbrev pub Inner : ℕ → Type 0
  Inner a = (may_access k false a ≡ true) × (user_byte mmu core k a ≢ 0)

  -- What the copy of at most `n` characters from `ptr` on gives: the string up to its NUL or its
  -- first `n` characters; or a panic at the first byte that the program may not read.
  pub data StringCopied (n ptr : ℕ) : Outcome SyscallPanic (List ℕ) → Type 0 where
    string :
        (s : List ℕ)
        → length s ≤ n
        → ((i : ℕ)
            → i < length s
            → Inner (ptr + i) × (user_byte mmu core k (ptr + i) ≡ get_or s i 0))
        → (length s < n
            → (may_access k false (ptr + length s) ≡ true)
              × (user_byte mmu core k (ptr + length s) ≡ 0))
        → StringCopied n ptr (ok s)
    denied :
        (i : ℕ)
        → i < n
        → ((j : ℕ) → j < i → Inner (ptr + j))
        → may_access k false (ptr + i) ≡ false
        → StringCopied n ptr (panic bad_string)
