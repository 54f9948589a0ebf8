-- ===== src/Syscall/Guarded.antt =====
-- What the calls of kernel/src/syscall.c write into the memory of programs.
use reborn_os.Prelude.{ℕ, ◌+◌, ◌<◌, ◌≡◌, ◌⊎◌, Bool, true, false, some, ◌≢◌, Outcome, ok, panic}
use reborn_os.Vmm.{Memory}
use reborn_os.Vmm.Access.{Access}
use reborn_os.Syscall.Defs.{
  Kernel, Frame, Reply, Call, SyscallPanic, tables, cr3, exit_call, exec_call, list_dir_call,
  read_file_call, fb_info_call, fb_map_call, mouse_read_call, sbrk_call,
}

module _ (mmu : Memory → ℕ → ℕ → ℕ) (core : ℕ) (k : Kernel) where
  -- Where the physical bytes are others than before, the processor would have let the program write
  -- itself.
  abbrev pub Guarded : Kernel → Type 0
  Guarded k' =
      (a : ℕ)
      → (k'.system.space.bytes a ≡ k.system.space.bytes a)
        ⊎ ((v : ℕ) × Access (tables k) (cr3 k) true v × (mmu (tables k) (cr3 k) v ≡ a))

  -- The words that the kernel itself keeps are as before; SYS_EXIT may store through the exit code's
  -- pointer of the thread that exits.
  abbrev pub KeepsWords : Call → Kernel → Type 0
  KeepsWords exit_call k' =
      (x : ℕ)
      → (k'.system.sched.memory x ≡ k.system.sched.memory x)
        ⊎ ((tid : ℕ) × (k.system.sched.current_thread core ≡ some tid)
            × (x ≢ 0)
            × ((k.system.sched.threads tid).exit_code_out ≡ x))
  KeepsWords _ k' = k'.system.sched.memory ≡ k.system.sched.memory

  -- The addresses that a store writes.
  abbrev Writable : ℕ → ℕ → Type 0
  Writable vaddr n = (i : ℕ) → i < n → Access (tables k) (cr3 k) true (vaddr + i)

  -- A state with the same page tables and the same words, reached by guarded writes.
  record Stored (k' : Kernel) : Type 0 where
    same_tables : tables k' ≡ tables k
    same_cr3 : cr3 k' ≡ cr3 k
    same_words : k'.system.sched.memory ≡ k.system.sched.memory
    guarded : Guarded k'

  -- A state reached by guarded writes, and none to the kernel's words.
  abbrev Kept : Kernel → Type 0
  Kept k' = Guarded k' × (k'.system.sched.memory ≡ k.system.sched.memory)

  -- What a call gives: a panic, or a state of which two things hold.
  abbrev Gives : (Kernel → Type 0) → Outcome SyscallPanic (Reply × Kernel) → Type 0
  Gives Words (panic e) = Unit
  Gives Words (ok (r, k')) = Guarded k' × Words k'

  abbrev pub Safe : Call → Outcome SyscallPanic (Reply × Kernel) → Type 0
  Safe c = Gives (KeepsWords c)

  abbrev Plain : Outcome SyscallPanic (Reply × Kernel) → Type 0
  Plain = Gives λ k'. k'.system.sched.memory ≡ k.system.sched.memory

  -- The calls that give a program no new pages.
  abbrev pub keeps_pages : Call → Bool
  keeps_pages exec_call = false
  keeps_pages fb_map_call = false
  keeps_pages sbrk_call = false
  keeps_pages _ = true

  -- The end of the buffer that a call writes; 0 for a call that has none.
  abbrev pub buffer_end : Call → Frame → ℕ
  buffer_end list_dir_call f = f.rsi + f.rdx
  buffer_end read_file_call f = f.rsi + f.rdx
  buffer_end fb_info_call f = f.rdi + 20
  buffer_end mouse_read_call f = f.rdi + 12
  buffer_end _ f = 0
