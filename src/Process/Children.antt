-- ===== src/Process/Children.antt =====
-- The wait of kernel/src/process.c for a child, over the steps of the cores.
use reborn_os.Prelude.{
  ℕ, ◌<◌, ◌≡◌, ◌≢◌, refl, sym, ◌⊎◌, inl, inr, false, Option, none, some, List, put, Outcome, ok,
  panic, within, within-eq-ok, >>=-rule, subst, arith,
}
use reborn_os.Scheduler.{
  Sched, Request, max_threads, thread_is_alive, thread_exit_code, install, new_thread,
  thread_create_process_arg, thread_create_ex,
}
use reborn_os.Scheduler.Machine.{Machine, Step}
use reborn_os.Scheduler.Mutex.{Created, thread_create_ex-Created}
use reborn_os.Scheduler.Exit.{Lives, lives, exited, Step-After}
use reborn_os.Vfs.{Loaded, vfs_read_file}
use reborn_os.Vmm.{vmm_create_address_space}
use reborn_os.Heap.{kmalloc, kfree}
use reborn_os.Elf.{elf_load_user_program}
use reborn_os.Process.Defs.{
  System, ProcessPanic, launch_for, launch_size, spawn_loaded, process_spawn_args_ex,
  start_and_wait, Waiting, failed, waits_for, in_scheduler, in_loader, in_vmm, in_vfs, to_int,
  poll_exit,
}

Lives-alive :
    {tid out : ℕ} {s : Sched} → tid < max_threads → Lives tid out s → poll_exit tid out s ≡ none
unfolding poll_exit thread_is_alive
Lives-alive h l = ground (arith, l.active)

exited_polls :
    (tid out : ℕ) {code : ℕ} (s : Sched)
    → thread_is_alive tid s ≡ false
    → s.memory out ≡ code
    → poll_exit tid out s ≡ some (to_int code)
unfolding poll_exit
exited_polls tid out s e c = rw (e, c) refl

-- After a step of any core from a state in which a child lives, in a slot of the table and with an
-- exit pointer that is not NULL, the test of the parent's loop finds that the child still lives;
-- or the step was the child's call of thread_exit_code, and the parent gets its code, cut to 32
-- bits.
pub poll_exit-After :
    {trampoline : ℕ} {m u : Machine} (tid out : ℕ)
    → tid < max_threads
    → out ≢ 0
    → Step trampoline m u
    → Lives tid out m.sched
    → ((poll_exit tid out u.sched ≡ none) × Lives tid out u.sched)
      ⊎ ((core : ℕ) × (code : ℕ) × (m.sched.current_thread core ≡ some tid)
          × (thread_exit_code core code m.sched ≡ ok u.sched)
          × (poll_exit tid out u.sched ≡ some (to_int code)))
poll_exit-After {m = m} {u} tid out h ne st l = elim (Step-After tid out ne st l) [
  | lives k ↦ inl (Lives-alive h k, k)
  | exited core code c e gone written ↦
      inr (core, code, c, e, exited_polls tid out u.sched gone written)
]

-- The thread that a spawn makes.
Created-starts :
    {trampoline : ℕ} {s : Sched} {r : Request} {tid : ℕ} {t : Sched}
    → Created trampoline s r tid t
    → (tid < max_threads) × Lives tid r.exit_code_out t
unfolding install new_thread
Created-starts {trampoline} {s} {r} {tid} c = (
  c.in_table,
  subst (Lives tid r.exit_code_out) (sym c.is_installed)
      (record { active = ground arith; pointer = ground arith }),
)

-- What a spawn gives: a panic, -1, or a thread that lives and has the exit pointer.
Spawned : ℕ → Outcome ProcessPanic (Option ℕ × System) → Type 0
Spawned out (panic e) = Unit
Spawned out (ok (none, s)) = Unit
Spawned out (ok (some tid, s)) = (tid < max_threads) × Lives tid out s.sched

module _ (trampoline elf_launch_process : ℕ) where
  spawn_loaded-Spawned :
      (elf : Option Loaded) (name : List ℕ) (argv : List (List ℕ)) (out : ℕ) (s : System)
      → Spawned out (spawn_loaded trampoline elf_launch_process elf name argv out s)
  unfolding spawn_loaded Spawned thread_create_process_arg
  spawn_loaded-Spawned none name argv out s = tt
  spawn_loaded-Spawned (some elf) name argv out s =
      >>=-rule (Spawned out) (within in_vmm (vmm_create_address_space s.space.vmm)) (λ e. tt)
        λ (cr3, v) made.
          >>=-rule (Spawned out) (launch_for (kmalloc s.sched.heap launch_size)) (λ e. tt)
            λ (proc, h) launched.
              >>=-rule (Spawned out)
                (within in_loader
                  (elf_load_user_program elf.bytes elf.size cr3 argv (record s.space { vmm = v })))
                (λ e. tt)
                λ (info, space) loaded.
                  let request : Request = record {
                    name = name;
                    entry = elf_launch_process;
                    arg = proc;
                    cr3 = cr3;
                    exit_code_out = out;
                  } in
                  let before : Sched = record s.sched { heap = kfree h elf.buf } in
                  >>=-rule (Spawned out)
                    (within in_scheduler (thread_create_ex trampoline before request)) (λ e. tt)
                    λ (tid, sched) started. Created-starts (
                      thread_create_ex-Created trampoline before request (
                        within-eq-ok in_scheduler (thread_create_ex trampoline before request)
                          started))

  process_spawn_args_ex-Spawned :
      (path name : List ℕ) (argv : List (List ℕ)) (out : ℕ) (s : System)
      → Spawned out (process_spawn_args_ex trampoline elf_launch_process path name argv out s)
  unfolding process_spawn_args_ex Spawned
  process_spawn_args_ex-Spawned path name argv out s =
      >>=-rule (Spawned out) (within in_vfs (vfs_read_file s.volume s.sched.heap path)) (λ e. tt)
        λ (elf, h) read.
          spawn_loaded-Spawned elf name argv out (record s { sched = record s.sched { heap = h } })

  -- Where the parent stands: a panic, -1, or the wait for a child that lives.
  abbrev pub Started : ℕ → Outcome ProcessPanic (Waiting × System) → Type 0
  Started out (panic e) = Unit
  Started out (ok (failed, s)) = Unit
  Started out (ok (waits_for tid exit_code, s)) =
      (exit_code ≡ out)
      × (tid < max_threads)
      × Lives tid out s.sched
      × (poll_exit tid out s.sched ≡ none)

  waiting-Started :
      (out : ℕ) (r : Option ℕ × System)
      → Spawned out (ok r)
      → Started out (ok (elim r.0 [ none ↦ failed | some id ↦ waits_for id out ], r.1))
  unfolding Spawned
  waiting-Started out (none, s) h = tt
  waiting-Started out (some tid, s) (l, k) = (refl, l, k, Lives-alive l k)

  -- process_spawn_args_and_wait either ends in a panic, returns -1, or has made a child that lives,
  -- in a slot of the table, with the address of the parent's variable as its exit pointer.
  pub start_and_wait-Started :
      (path name : List ℕ) (argv : List (List ℕ)) (out : ℕ) (s : System)
      → Started out (start_and_wait trampoline elf_launch_process out path name argv s)
  unfolding start_and_wait
  start_and_wait-Started path name argv out s =
      let before = record s { sched = record s.sched { memory = put s.sched.memory out 0 } } in
      >>=-rule (Started out)
        (process_spawn_args_ex trampoline elf_launch_process path name argv out before) (λ e. tt)
        λ r spawned.
          waiting-Started out r
            (subst (Spawned out) spawned (process_spawn_args_ex-Spawned path name argv out before))
