-- ===== src/Scheduler/Defs.antt =====
-- The thread table and the functions of kernel/src/scheduler.c.
use reborn_os.Prelude.{
  ℕ, zero, suc, ◌+◌, ◌-◌, ◌*◌, ◌%◌, ◌^◌, Bool, true, false, ◌&&◌, not, Option, none, some, List, [],
  ◌∷◌, ltb, leb, ◌==◌, if◌then◌else◌, put, is_none, Outcome, ok, panic, ◌>>=◌, u32,
}
use reborn_os.Heap.{Heap, kmalloc, kfree}

abbrev pub max_threads : ℕ
max_threads = 32

abbrev pub stack_size : ℕ
stack_size = 16 * 1024

-- ELF_USER_LOAD_BASE + 0x1000000
abbrev pub user_heap_start : ℕ
user_heap_start = 0x8000400000 + 0x1000000

pub data ThreadState : Type 0 where
  unused active zombie : ThreadState

-- `thread_t`. A core number or -1 is an `Option`; NULL is 0.
pub record Thread : Type 0 where
  pub rsp : ℕ
  pub cr3 : ℕ
  pub kernel_stack_top : ℕ
  pub stack_base : ℕ
  pub state : ThreadState
  pub running_on_core : Option ℕ
  pub heap_brk : ℕ
  pub exit_code_out : ℕ
  pub is_idle : Bool
  pub name : List ℕ

-- The static variables of scheduler.c, the heap, the words of memory that it writes through
-- pointers, and each core's CR3 and TSS.RSP0.
pub record Sched : Type 0 where
  pub threads : ℕ → Thread
  pub active_count : ℕ
  pub current_thread : ℕ → Option ℕ
  pub idle_tid : ℕ → Option ℕ
  pub heap : Heap
  pub memory : ℕ → ℕ
  pub cr3_of : ℕ → ℕ
  pub rsp0_of : ℕ → ℕ

pub data Panic : Type 0 where
  too_many_threads no_stack no_current_thread no_threads no_idle_thread : Panic

abbrev pub is_unused : ThreadState → Bool
is_unused unused = true
is_unused _ = false

abbrev pub is_active : ThreadState → Bool
is_active active = true
is_active _ = false

abbrev pub is_zombie : ThreadState → Bool
is_zombie zombie = true
is_zombie _ = false

-- The loop of scheduler_init sets two fields of each slot, and the one after it two tables.
unfoldable pub scheduler_init : Sched → Sched
scheduler_init s = record s {
  threads = λ i.
      if ltb i max_threads
      then record (s.threads i) { state = unused; running_on_core = none }
      else s.threads i;
  active_count = 0;
  current_thread = λ _. none;
  idle_tid = λ _. none;
}

-- The search of thread_create_ex for a free slot from `i` on.
unfoldable pub free_slot : ℕ → ℕ → (ℕ → Thread) → Option ℕ
free_slot zero i threads = none
free_slot (suc rounds) i threads =
    let rest = free_slot rounds (i + 1) threads in
    if is_unused (threads i).state then some i else rest

-- At most 15 characters, up to the NUL.
unfoldable pub copy_name : ℕ → List ℕ → List ℕ
copy_name zero cs = []
copy_name (suc room) [] = []
copy_name (suc room) (c ∷ cs) = let rest = copy_name room cs in if c == 0 then [] else c ∷ rest

-- What a new thread is given.
pub record Request : Type 0 where
  pub name : List ℕ
  pub entry : ℕ
  pub arg : ℕ
  pub cr3 : ℕ
  pub exit_code_out : ℕ

-- The seven words below the top of a new stack, as switch_context pops them.
abbrev pub initial_frame : (ℕ → ℕ) → ℕ → ℕ → Request → ℕ → ℕ
initial_frame m top trampoline r =
    put
      (put
        (put
          (put (put (put (put m (top - 8) trampoline) (top - 16) 0) (top - 24) r.entry) (top - 32)
            r.arg)
          (top - 40) 0)
        (top - 48) 0)
      (top - 56) 0

unfoldable pub new_thread : ℕ → Request → Thread
new_thread stack r = record {
  rsp = stack + stack_size - 56;
  cr3 = r.cr3;
  kernel_stack_top = stack + stack_size;
  stack_base = stack;
  state = active;
  running_on_core = none;
  heap_brk = user_heap_start;
  exit_code_out = r.exit_code_out;
  is_idle = false;
  name = copy_name 15 r.name;
}

-- What thread_create_ex does with its slot and its stack. `trampoline` is the address of
-- thread_trampoline.
unfoldable pub install : ℕ → Sched → Request → ℕ → ℕ → Heap → Sched
install trampoline s r id stack h = record s {
  threads = put s.threads id (new_thread stack r);
  active_count = u32 (s.active_count + 1);
  heap = h;
  memory = initial_frame s.memory (stack + stack_size) trampoline r;
}

-- kmalloc always ends; the case that it does not is counted as a failure.
abbrev pub stack_for : Option (ℕ × Heap) → Outcome Panic (ℕ × Heap)
stack_for none = panic no_stack
stack_for (some (p, h)) = if p == 0 then panic no_stack else ok (p, h)

abbrev pub slot_for : Option ℕ → Outcome Panic ℕ
slot_for none = panic too_many_threads
slot_for (some i) = ok i

unfoldable pub thread_create_ex : ℕ → Sched → Request → Outcome Panic (ℕ × Sched)
thread_create_ex trampoline s r = do
  id ← slot_for (free_slot max_threads 0 s.threads)
  (stack, h) ← stack_for (kmalloc s.heap stack_size)
  ok (id, install trampoline s r id stack h)

-- `kernel_cr3` is that of vmm_kernel_cr3.
unfoldable pub thread_create : ℕ → List ℕ → ℕ → ℕ → Sched → Outcome Panic (ℕ × Sched)
thread_create trampoline name entry kernel_cr3 s =
    thread_create_ex trampoline s
      (record { name = name; entry = entry; arg = 0; cr3 = kernel_cr3; exit_code_out = 0 })

unfoldable pub thread_create_process : ℕ → List ℕ → ℕ → ℕ → Sched → Outcome Panic (ℕ × Sched)
thread_create_process trampoline name entry cr3 s =
    thread_create_ex trampoline s
      (record { name = name; entry = entry; arg = 0; cr3 = cr3; exit_code_out = 0 })

unfoldable pub thread_create_process_arg :
    ℕ → List ℕ → ℕ → ℕ → ℕ → ℕ → Sched → Outcome Panic (ℕ × Sched)
thread_create_process_arg trampoline name entry arg cr3 exit_code_out s =
    thread_create_ex trampoline s
      (record { name = name; entry = entry; arg = arg; cr3 = cr3; exit_code_out = exit_code_out })

-- The slot that round `i` of next_ready_after looks at; a `start` of -1 is `none`.
abbrev pub slot_at : Option ℕ → ℕ → ℕ
slot_at none i = (i - 1) % max_threads
slot_at (some start) i = (start + i) % max_threads

abbrev pub is_ready : Thread → Bool
is_ready t = is_active t.state && (is_none t.running_on_core && not t.is_idle)

unfoldable pub ready_loop : ℕ → ℕ → Option ℕ → (ℕ → Thread) → Option ℕ
ready_loop zero i start threads = none
ready_loop (suc rounds) i start threads =
    let idx = slot_at start i in
    let rest = ready_loop rounds (i + 1) start threads in
    if is_ready (threads idx) then some idx else rest

unfoldable pub next_ready_after : Option ℕ → (ℕ → Thread) → Option ℕ
next_ready_after start threads = ready_loop max_threads 1 start threads

-- One round of scheduler_create_idle_threads.
unfoldable pub mark_idle : ℕ → ℕ → Sched → Sched
mark_idle core tid s = record s {
  threads = put s.threads tid (record (s.threads tid) { is_idle = true });
  idle_tid = put s.idle_tid core (some tid);
}

unfoldable pub create_idle_thread : ℕ → ℕ → Request → Sched → Outcome Panic Sched
create_idle_thread trampoline core r s = do
  (tid, s') ← thread_create_ex trampoline s r
  ok (mark_idle core tid s')

unfoldable pub create_idle_loop : ℕ → ℕ → ℕ → Request → Sched → Outcome Panic Sched
create_idle_loop trampoline zero core r s = ok s
create_idle_loop trampoline (suc rounds) core r s = do
  s' ← create_idle_thread trampoline core r s
  create_idle_loop trampoline rounds (core + 1) r s'

unfoldable pub scheduler_create_idle_threads : ℕ → ℕ → Request → Sched → Outcome Panic Sched
scheduler_create_idle_threads trampoline cpu_count r s = create_idle_loop trampoline cpu_count 0 r s

-- How a call of schedule goes on after it has released the lock: it returns; it leaves a context
-- that is never resumed; it frees a zombie's stack and leaves; or it saves `prev` and releases it.
pub data Switch : Type 0 where
  stay : Switch
  leave : (next : ℕ) → Switch
  reap : (stack next : ℕ) → Switch
  save : (prev next : ℕ) → Switch

-- The core takes `next`: its table entry, the thread's flag, CR3 and RSP0.
unfoldable pub assign : ℕ → ℕ → Sched → Sched
assign core next s = record s {
  threads = put s.threads next (record (s.threads next) { running_on_core = some core });
  current_thread = put s.current_thread core (some next);
  cr3_of = put s.cr3_of core (s.threads next).cr3;
  rsp0_of = put s.rsp0_of core (s.threads next).kernel_stack_top;
}

-- A zombie's slot becomes free.
unfoldable pub retire : ℕ → Sched → Sched
retire prev s = record s {
  threads = put s.threads prev (record (s.threads prev) { state = unused; running_on_core = none });
  active_count = u32 (s.active_count + 2 ^ 32 - 1);
}

abbrev pub prev_is_zombie : Option ℕ → Sched → Bool
prev_is_zombie none s = false
prev_is_zombie (some prev) s = is_zombie (s.threads prev).state

-- The second half of schedule, once `next` is chosen. A stack is never NULL: thread_create_ex would
-- have ended in a panic.
unfoldable pub switch_to : ℕ → Option ℕ → ℕ → Sched → Switch × Sched
switch_to core none next s = (leave next, assign core next s)
switch_to core (some prev) next s =
    if is_zombie (s.threads prev).state
    then (reap (s.threads prev).stack_base next, retire prev (assign core next s))
    else (save prev next, assign core next s)

abbrev pub idle_for : Option ℕ → Outcome Panic ℕ
idle_for none = panic no_idle_thread
idle_for (some tid) = ok tid

-- The choice of schedule between the next ready thread, staying, and the idle thread. Without an
-- idle thread the code would index the table by -1.
unfoldable pub choose : ℕ → Option ℕ → Option ℕ → Sched → Outcome Panic (Switch × Sched)
choose core prev (some next) s = ok (switch_to core prev next s)
choose core prev none s =
    if not (prev_is_zombie prev s)
    then ok (stay, s)
    else (do tid ← idle_for (s.idle_tid core); ok (switch_to core prev tid s))

-- schedule up to the release of the lock.
unfoldable pub schedule : ℕ → Sched → Outcome Panic (Switch × Sched)
schedule core s =
    let prev = s.current_thread core in
    if not (prev_is_zombie prev s) && leb s.active_count 1
    then ok (stay, s)
    else choose core prev (next_ready_after prev s.threads) s

-- schedule after the lock: `rsp` is the stack pointer that the core saves. switch_context_release
-- stores it before it clears the flag.
unfoldable pub finish_switch : ℕ → Switch → Sched → Sched
finish_switch rsp stay s = s
finish_switch rsp (leave next) s = s
finish_switch rsp (reap stack next) s = record s { heap = kfree s.heap stack }
finish_switch rsp (save prev next) s = record s {
  threads = put s.threads prev (record (s.threads prev) { rsp = rsp; running_on_core = none });
}

-- thread_exit_code up to its calls of schedule.
unfoldable pub exit_thread : ℕ → ℕ → Sched → Sched
exit_thread tid code s = record s {
  memory =
      if (s.threads tid).exit_code_out == 0
      then s.memory
      else put s.memory (s.threads tid).exit_code_out code;
  threads = put s.threads tid (record (s.threads tid) { state = zombie });
}

abbrev pub current_for : Option ℕ → Outcome Panic ℕ
current_for none = panic no_current_thread
current_for (some tid) = ok tid

unfoldable pub thread_exit_code : ℕ → ℕ → Sched → Outcome Panic Sched
thread_exit_code core code s = do
  tid ← current_for (s.current_thread core)
  ok (exit_thread tid code s)

unfoldable pub thread_exit : ℕ → Sched → Outcome Panic Sched
thread_exit core s = thread_exit_code core 0 s

-- The name of a core's thread; none for "(none)".
abbrev pub thread_current_name : ℕ → Sched → Option (List ℕ)
thread_current_name core s = elim (s.current_thread core) [
  | none ↦ none
  | some tid ↦ some (s.threads tid).name
]

unfoldable pub thread_is_alive : ℕ → Sched → Bool
thread_is_alive tid s = ltb tid max_threads && is_active (s.threads tid).state

unfoldable pub thread_set_heap_brk : ℕ → ℕ → Sched → Outcome Panic Sched
thread_set_heap_brk core brk s = do
  tid ← current_for (s.current_thread core)
  ok (record s { threads = put s.threads tid (record (s.threads tid) { heap_brk = brk }) })

unfoldable pub thread_get_heap_brk : ℕ → Sched → Outcome Panic ℕ
thread_get_heap_brk core s = do
  tid ← current_for (s.current_thread core)
  ok (s.threads tid).heap_brk

abbrev pub first_for : ℕ → Option ℕ → Sched → Outcome Panic ℕ
first_for core none s = idle_for (s.idle_tid core)
first_for core (some tid) s = ok tid

-- scheduler_start up to the release of the lock: the thread that the core then switches into.
unfoldable pub scheduler_start : ℕ → Sched → Outcome Panic (ℕ × Sched)
scheduler_start core s = if s.active_count == 0 then panic no_threads else (do
  first ← first_for core (next_ready_after none s.threads) s
  ok (first, assign core first s))
