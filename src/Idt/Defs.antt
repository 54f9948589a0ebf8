-- ===== src/Idt/Defs.antt =====
-- exception_handler, interrupt_dispatch and idt_set_irq_handler of kernel/src/idt.c. What they print is
-- left out.
use reborn_os.Prelude.{
  ℕ, ◌-◌, ◌%◌, ◌^◌, Bool, true, false, Option, none, some, ltb, ◌==◌, if◌then◌else◌, put, Outcome,
  ok, panic, ◌>>=◌, within,
}
use reborn_os.Vmm.{Memory}
use reborn_os.Scheduler.{Sched, Panic, thread_exit_code}
use reborn_os.Elf.{Reason, Space, elf_handle_stack_fault}
use reborn_os.Syscall.{Kernel, Frame, Reply, SyscallPanic, with_space, syscall_dispatch}

-- An interrupt_frame_t, and what CR2 holds.
pub record Interrupt : Type 0 where
  pub registers : Frame
  pub vector : ℕ
  pub error_code : ℕ
  pub fault_addr : ℕ

pub data IdtPanic : Type 0 where
  cpu_exception : IdtPanic
  in_loader : Reason → IdtPanic
  in_threads : Panic → IdtPanic
  in_syscall : SyscallPanic → IdtPanic

-- Back to what was interrupted; the thread has ended; a system call with its reply; or the work of the
-- handler of a device.
pub data Handled : Type 0 where
  resumes ended device : Handled
  system_call : Reply → Handled

abbrev pub from_ring3 : Interrupt → Bool
from_ring3 i = i.registers.cs % 4 == 3

-- FAULT_EXIT_CODE, a negative number in 64 bits.
abbrev pub fault_exit_code : ℕ → ℕ
fault_exit_code vector = 2 ^ 64 - 1000 - vector

abbrev pub with_sched : Kernel → Sched → Kernel
with_sched k s = record k { system = record k.system { sched = s } }

-- The handlers of the devices.
abbrev pub Handlers : Type 0
Handlers = ℕ → Option (Kernel → Kernel)

unfoldable pub idt_set_irq_handler : ℕ → (Kernel → Kernel) → Handlers → Handlers
idt_set_irq_handler irq handler handlers =
    if ltb irq 16 then put handlers irq (some handler) else handlers

abbrev pub handle_irq : Option (Kernel → Kernel) → Kernel → Kernel
handle_irq none k = k
handle_irq (some handler) k = handler k

-- `core` is the core that takes the interrupt.
module _ (core : ℕ) where
  -- The end of a process that faults, or of the kernel.
  unfoldable pub fault : Interrupt → Kernel → Outcome IdtPanic (Handled × Kernel)
  fault i k =
      if from_ring3 i
      then (do
        s ← within in_threads (thread_exit_code core (fault_exit_code i.vector) k.system.sched)
        ok (ended, with_sched k s))
      else panic cpu_exception

  abbrev pub after_stack : Interrupt → Kernel → Bool × Space → Outcome IdtPanic (Handled × Kernel)
  after_stack i k (true, s) = ok (resumes, with_space s k)
  after_stack i k (false, s) = fault i (with_space s k)

  unfoldable pub page_fault : Interrupt → Kernel → Outcome IdtPanic (Handled × Kernel)
  page_fault i k = do
    grown ←
        within in_loader
          (elf_handle_stack_fault i.fault_addr i.error_code (from_ring3 i) k.system.space)
    after_stack i k grown

  unfoldable pub exception_handler : Interrupt → Kernel → Outcome IdtPanic (Handled × Kernel)
  exception_handler i k = if i.vector == 14 then page_fault i k else fault i k

  -- The parameters are those of syscall_dispatch, and lapic_timer_isr.
  unfoldable pub interrupt_dispatch :
      (Memory → ℕ → ℕ → ℕ)
      → ℕ
      → ℕ
      → ℕ
      → (Kernel → Kernel)
      → Handlers
      → Interrupt
      → Kernel
      → Outcome IdtPanic (Handled × Kernel)
  interrupt_dispatch mmu trampoline elf_launch_process exit_slot lapic_timer_isr handlers i k =
      if ltb i.vector 32
      then exception_handler i k
      else if i.vector == 128
      then (do
        (r, k') ←
            within in_syscall
              (syscall_dispatch mmu core trampoline elf_launch_process exit_slot i.registers k)
        ok (system_call r, k'))
      else if i.vector == 48
      then ok (device, lapic_timer_isr k)
      else if ltb i.vector 48
      then ok (device, handle_irq (handlers (i.vector - 32)) k)
      else ok (resumes, k)
