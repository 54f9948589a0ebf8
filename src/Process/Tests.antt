-- ===== src/Process/Tests.antt =====
-- A child of kernel/src/process.c that ends while its parent waits.
use reborn_os.Prelude.{
  ℕ, ◌^◌, ◌≡◌, ◌⊎◌, refl, none, some, [], arith, false, ◌-◌, ◌==◌, if◌then◌else◌, ok,
}
use reborn_os.Scheduler.{Sched, Thread, unused, active, stay, thread_exit_code, exit_thread}
use reborn_os.Scheduler.Machine.{Machine, Step, exit}
use reborn_os.Scheduler.Exit.{Lives}
use reborn_os.Process.Defs.{to_int, poll_exit}
use reborn_os.Process.Children.{poll_exit-After}
use reborn_os.Heap.Tests.{boot_heap}

abbrev thread_of : ℕ → Thread
thread_of i = record {
  rsp = 0;
  cr3 = 0;
  kernel_stack_top = 0;
  stack_base = 0;
  state = if i == 3 then active else unused;
  running_on_core = if i == 3 then some 0 else none;
  heap_brk = 0;
  exit_code_out = 0x1234;
  is_idle = false;
  name = [];
}

-- Thread 3 runs on core 0.
abbrev child_runs : Sched
child_runs = record {
  threads = thread_of;
  active_count = 1;
  current_thread = λ core. if core == 0 then some 3 else none;
  idle_tid = λ core. none;
  heap = boot_heap;
  memory = λ a. 0;
  cr3_of = λ core. 0;
  rsp0_of = λ core. 0;
}

abbrev child_ended : Sched
child_ended = exit_thread 3 (2 ^ 64 - 1) child_runs

abbrev before : Machine
before = record { sched = child_runs; pending = λ core. stay }

abbrev after : Machine
after = record { sched = child_ended; pending = λ core. stay }

child_exits : Step 0 before after
unfolding thread_exit_code
child_exits = exit {s = child_ended} 0 (2 ^ 64 - 1) 3 refl refl refl refl refl

poll_exit-After_example :
    ((poll_exit 3 0x1234 after.sched ≡ none) × Lives 3 0x1234 after.sched)
    ⊎ ((core : ℕ) × (code : ℕ) × (before.sched.current_thread core ≡ some 3)
        × (thread_exit_code core code before.sched ≡ ok after.sched)
        × (poll_exit 3 0x1234 after.sched ≡ some (to_int code)))
poll_exit-After_example =
    poll_exit-After {trampoline = 0} {m = before} {u = after} 3 0x1234 (omega arith)
      (λ e. omega arith) child_exits (record { active = refl; pointer = refl })
