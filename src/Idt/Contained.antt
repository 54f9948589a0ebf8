-- ===== src/Idt/Contained.antt =====
-- The faults of programs in kernel/src/idt.c.
use reborn_os.Prelude.{ℕ, ◌<◌, ◌≡◌, Outcome, ok, panic}
use reborn_os.Scheduler.{exit_thread}
use reborn_os.Elf.{paging, Space}
use reborn_os.Elf.StackFault.{MissingStack, Grown, StackFault}
use reborn_os.Vmm.{no_memory}
use reborn_os.Syscall.{Kernel, with_space}
use reborn_os.Idt.Defs.{
  Interrupt, IdtPanic, in_loader, Handled, resumes, ended, fault_exit_code, with_sched,
}

-- What an exception of a program that runs as thread `tid` comes to. A page fault on an unmapped page
-- of its stack, with a page free, gives it the page, and it goes on; or halts the kernel, if there
-- are fewer than four free pages, none of them left for a page table. After any other exception its
-- thread ends with the code of the fault, and nothing else changes.
pub data Contained (level : ℕ → ℕ) (root : ℕ) (i : Interrupt) (tid : ℕ) (k : Kernel)
    : Outcome IdtPanic (Handled × Kernel) → Type 0 where
  grown :
      (t : Space)
      → i.vector ≡ 14
      → MissingStack i.fault_addr i.error_code k.system.space
      → Grown level root i.fault_addr k.system.space t
      → Contained level root i tid k (ok (resumes, with_space t k))
  killed :
      (i.vector ≡ 14
        → MissingStack i.fault_addr i.error_code k.system.space
        → k.system.space.vmm.pmm.free_pages ≡ 0)
      → Contained level root i tid k
          (ok (ended, with_sched k (exit_thread tid (fault_exit_code i.vector) k.system.sched)))
  no_tables :
      i.vector ≡ 14
      → MissingStack i.fault_addr i.error_code k.system.space
      → k.system.space.vmm.pmm.free_pages < 4
      → Contained level root i tid k (panic (in_loader (paging no_memory)))
