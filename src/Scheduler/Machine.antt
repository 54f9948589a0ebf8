-- ===== src/Scheduler/Machine.antt =====
-- The cores of kernel/src/scheduler.c at work: any interleaving of their calls, with the switch
-- that follows a call of schedule as a step of its own.
use reborn_os.Prelude.{ℕ, ◌≡◌, true, false, none, some, put, ok}
use reborn_os.Scheduler.Defs.{
  Sched, Request, Switch, stay, leave, thread_create_ex, create_idle_thread, schedule,
  scheduler_start, finish_switch, thread_exit_code, thread_set_heap_brk, scheduler_init, is_active,
}

-- The shared state, and the switch that each core still has to make.
pub record Machine : Type 0 where
  pub sched : Sched
  pub pending : ℕ → Switch

-- One step of one core. A core in the middle of a switch does nothing else; only an active thread
-- that is not an idle thread exits; a core gets its idle thread once.
pub data Step (trampoline : ℕ) (m : Machine) : Machine → Type 0 where
  create :
      {tid : ℕ} {s : Sched} (r : Request)
      → thread_create_ex trampoline m.sched r ≡ ok (tid, s)
      → Step trampoline m (record m { sched = s })
  create_idle :
      {s : Sched} (core : ℕ) (r : Request)
      → m.sched.idle_tid core ≡ none
      → create_idle_thread trampoline core r m.sched ≡ ok s
      → Step trampoline m (record m { sched = s })
  call :
      {w : Switch} {s : Sched} (core : ℕ)
      → m.pending core ≡ stay
      → schedule core m.sched ≡ ok (w, s)
      → Step trampoline m (record { sched = s; pending = put m.pending core w })
  start :
      {first : ℕ} {s : Sched} (core : ℕ)
      → m.pending core ≡ stay
      → m.sched.current_thread core ≡ none
      → scheduler_start core m.sched ≡ ok (first, s)
      → Step trampoline m (record { sched = s; pending = put m.pending core (leave first) })
  finish :
      (core rsp : ℕ)
      → Step trampoline m (record {
        sched = finish_switch rsp (m.pending core) m.sched;
        pending = put m.pending core stay;
      })
  exit :
      {s : Sched} (core code tid : ℕ)
      → m.pending core ≡ stay
      → m.sched.current_thread core ≡ some tid
      → (m.sched.threads tid).is_idle ≡ false
      → is_active (m.sched.threads tid).state ≡ true
      → thread_exit_code core code m.sched ≡ ok s
      → Step trampoline m (record m { sched = s })
  set_brk :
      {s : Sched} (core brk : ℕ)
      → thread_set_heap_brk core brk m.sched ≡ ok s
      → Step trampoline m (record m { sched = s })

-- After scheduler_init, with no core in a switch.
abbrev pub booted : Sched → Machine
booted s = record { sched = scheduler_init s; pending = λ _. stay }

pub data Reach (trampoline : ℕ) (m : Machine) : Machine → Type 0 where
  here : Reach trampoline m m
  next : {u v : Machine} → Reach trampoline m u → Step trampoline u v → Reach trampoline m v
