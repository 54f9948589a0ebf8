-- ===== src/Idt/Tests.antt =====
-- A program of kernel/src/idt.c that divides by zero.
use reborn_os.Prelude.{some}
use reborn_os.Syscall.{Kernel}
use reborn_os.Syscall.Tests.{sample}
use reborn_os.Vmm.Tests.{empty_tree}
use reborn_os.Idt.Defs.{Interrupt}
use reborn_os.Idt.Contained.{Contained}

-- Thread 2 runs on every core, under an empty address space.
abbrev running : Kernel
running = record sample {
  system = record sample.system {
    space = record sample.system.space { vmm = empty_tree };
    sched = record sample.system.sched { current_thread = λ core. some 2 };
  };
}

abbrev divide_error : Interrupt
divide_error = record {
  registers = record { cs = 0x1B; rax = 0; rdi = 0; rsi = 0; rdx = 0 };
  vector = 0;
  error_code = 0;
  fault_addr = 0;
}
