-- ===== src/Scheduler/Tests.antt =====
-- Runs of kernel/src/scheduler.c: boot, one thread, and a core that starts it.
use reborn_os.Prelude.{
  ℕ, suc, ◌+◌, ◌<◌, ◌≡◌, ◌≢◌, refl, false, arith, none, some, List, [], ◌∷◌, ◌==◌, if◌then◌else◌,
  put, ok,
}
use reborn_os.Heap.{Heap, heap_base, header_size, kmalloc}
use reborn_os.Heap.Cells.{Cell, IsHeap, first_fit, fit_pointer}
use reborn_os.Heap.Alloc.{kmalloc-first_fit}
use reborn_os.Heap.Tests.{boot_heap, one_block, boot_heap-IsHeap}
use reborn_os.Scheduler.Defs.{
  Thread, unused, active, Sched, Request, stay, leave, save, max_threads, stack_size,
  scheduler_init, free_slot, install, new_thread, thread_create_ex, next_ready_after, ready_loop,
  schedule, scheduler_start, assign, choose, switch_to, finish_switch,
}
use reborn_os.Scheduler.Turns.{First, next_ready_after-First}
use reborn_os.Scheduler.Fair.{current_after, served_in_turn}
use reborn_os.Scheduler.Machine.{
  Machine, Step, create, start, call, finish, Reach, here, next, booted,
}
use reborn_os.Scheduler.Exclusive.{IsSound}
use reborn_os.Scheduler.Mutex.{
  Created, thread_create_ex-Created, Step-IsSound, Reach-IsSound, no_double_run,
}

abbrev empty_slot : Thread
empty_slot = record {
  rsp = 0;
  cr3 = 0;
  kernel_stack_top = 0;
  stack_base = 0;
  state = unused;
  running_on_core = none;
  heap_brk = 0;
  exit_code_out = 0;
  is_idle = false;
  name = [];
}

abbrev ready_slot : Thread
ready_slot = record empty_slot { state = active }

-- Slots 3 and 7 are ready.
abbrev two_ready : ℕ → Thread
two_ready i = if i == 3 then ready_slot else if i == 7 then ready_slot else empty_slot

next_ready_after-First_example : First (some 3) two_ready (next_ready_after (some 3) two_ready)
next_ready_after-First_example = next_ready_after-First (some 3) two_ready

after_3 : next_ready_after (some 3) two_ready ≡ some 7
unfolding next_ready_after ready_loop
after_3 = refl

-- The search goes round the table.
after_7 : next_ready_after (some 7) two_ready ≡ some 3
unfolding next_ready_after ready_loop
after_7 = refl

none_ready : next_ready_after none (λ i. empty_slot) ≡ none
unfolding next_ready_after ready_loop
none_ready = refl

abbrev at_boot : Sched
at_boot = record {
  threads = λ i. empty_slot;
  active_count = 0;
  current_thread = λ c. none;
  idle_tid = λ c. none;
  heap = boot_heap;
  memory = λ a. 0;
  cr3_of = λ c. 0;
  rsp0_of = λ c. 0;
}

abbrev main_thread : Request
main_thread = record { name = 109 ∷ []; entry = 0x1000; arg = 0; cr3 = 0x5000; exit_code_out = 0 }

-- The heap after the stack is taken.
abbrev heap_after : Heap
heap_after = (kmalloc-first_fit boot_heap one_block stack_size boot_heap-IsHeap (omega arith)).0

abbrev stack : ℕ
stack = heap_base + header_size

stack_taken : kmalloc boot_heap stack_size ≡ some (stack, heap_after)
unfolding fit_pointer
stack_taken = (kmalloc-first_fit boot_heap one_block stack_size boot_heap-IsHeap (omega arith)).1

abbrev one_thread : Sched
one_thread = install 9 (scheduler_init at_boot) main_thread 0 stack heap_after

creates : thread_create_ex 9 (scheduler_init at_boot) main_thread ≡ ok (0, one_thread)
unfolding thread_create_ex free_slot scheduler_init
creates = rw stack_taken refl

thread_create_ex-Created_example : Created 9 (scheduler_init at_boot) main_thread 0 one_thread
thread_create_ex-Created_example =
    thread_create_ex-Created 9 (scheduler_init at_boot) main_thread creates

abbrev after_first : List Cell
after_first = first_fit stack_size one_block

after_first-IsHeap : IsHeap heap_after after_first
after_first-IsHeap =
    (kmalloc-first_fit boot_heap one_block stack_size boot_heap-IsHeap (omega arith)).2

-- The same for a second thread, whose stack is behind the first.
abbrev heap_after_two : Heap
heap_after_two =
    (kmalloc-first_fit heap_after after_first stack_size after_first-IsHeap (omega arith)).0

abbrev second_stack : ℕ
second_stack = heap_base + header_size + stack_size + header_size

second_stack_taken : kmalloc heap_after stack_size ≡ some (second_stack, heap_after_two)
unfolding fit_pointer first_fit
second_stack_taken =
    (kmalloc-first_fit heap_after after_first stack_size after_first-IsHeap (omega arith)).1

abbrev two_threads : Sched
two_threads = install 9 one_thread main_thread 1 second_stack heap_after_two

creates_second : thread_create_ex 9 one_thread main_thread ≡ ok (1, two_threads)
unfolding thread_create_ex free_slot scheduler_init install new_thread
creates_second = rw second_stack_taken refl

abbrev started : Machine
started = record { sched = assign 0 0 two_threads; pending = put (λ c. stay) 0 (leave 0) }

starts : scheduler_start 0 two_threads ≡ ok (0, assign 0 0 two_threads)
unfolding scheduler_start install scheduler_init next_ready_after ready_loop new_thread
starts = refl

starting : Step 9 (record { sched = two_threads; pending = λ c. stay }) started
unfolding install scheduler_init
starting = start 0 refl refl starts

runs_two : Reach 9 (booted at_boot) (record { sched = two_threads; pending = λ c. stay })
runs_two = next (next here (create main_thread creates)) (create main_thread creates_second)

Step-IsSound_example : IsSound started.sched started.pending
Step-IsSound_example = Step-IsSound starting (Reach-IsSound at_boot runs_two)

-- Core 0 has made its switch into thread 0.
abbrev in_thread_0 : Machine
in_thread_0 = record { sched = assign 0 0 two_threads; pending = put started.pending 0 stay }

finishing : Step 9 started in_thread_0
unfolding finish_switch
finishing = finish 0 7

-- Core 0 then goes on to thread 1, and still has to save thread 0.
abbrev switching : Machine
switching = record {
  sched = assign 0 1 (assign 0 0 two_threads);
  pending = put in_thread_0.pending 0 (save 0 1);
}

schedules : schedule 0 in_thread_0.sched ≡ ok (save 0 1, switching.sched)
unfolding schedule choose switch_to assign install scheduler_init next_ready_after ready_loop
    new_thread
schedules = refl

runs : Reach 9 (booted at_boot) in_thread_0
runs = next (next runs_two starting) finishing

-- While core 0 saves thread 0, nobody runs it, and only core 0 runs thread 1.
no_double_run_example :
    (switching.sched.current_thread 1 ≡ some 1 → ◌≡◌ {A = ℕ} 1 0)
    × ((n : ℕ) → switching.pending 1 ≢ save 1 n)
unfolding assign
no_double_run_example = no_double_run at_boot (next runs (call 0 refl schedules)) 1 0 1 refl

-- Thread 7 waits behind thread 3.
served_in_turn_example :
    (i : ℕ) × (i < max_threads) × (current_after (λ i. two_ready) (some 7) (suc i) ≡ some 7)
served_in_turn_example = served_in_turn (λ i. two_ready) (some 7) 7 (omega arith) λ i l. refl
