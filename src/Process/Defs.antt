-- ===== src/Process/Defs.antt =====
-- The functions of kernel/src/process.c over the file system, the page tables, the heap and the
-- scheduler.
use reborn_os.Prelude.{
  ℕ, ◌%◌, ◌^◌, Option, none, some, List, [], ◌==◌, if◌then◌else◌, put, Outcome, ok, panic, ◌>>=◌,
  within,
}
use reborn_os.Heap.{Heap, kmalloc, kfree}
use reborn_os.Scheduler.{Sched, Panic, thread_create_process_arg, thread_is_alive}
use reborn_os.Fat16.Volume.{Volume}
use reborn_os.Vfs.{VfsPanic, Loaded, vfs_read_file}
use reborn_os.Vmm.{Vmm, vmm_create_address_space}
use reborn_os.Vmm
use reborn_os.Elf.{Space, Reason, elf_load_user_program}
use reborn_os.Elf

-- What a process is made from. The launch information of each child is kept by its address.
pub record System : Type 0 where
  pub space : Space
  pub sched : Sched
  pub volume : Volume
  pub launch : ℕ → Option Elf.Process

pub data ProcessPanic : Type 0 where
  no_launch_info : ProcessPanic
  in_vfs : VfsPanic → ProcessPanic
  in_vmm : Vmm.Fault → ProcessPanic
  in_loader : Reason → ProcessPanic
  in_scheduler : Panic → ProcessPanic

-- sizeof(elf_process_t): three 64-bit fields, and an `int` with its padding.
abbrev pub launch_size : ℕ
launch_size = 32

abbrev pub launch_for : Option (ℕ × Heap) → Outcome ProcessPanic (ℕ × Heap)
launch_for none = panic no_launch_info
launch_for (some (p, h)) = if p == 0 then panic no_launch_info else ok (p, h)

-- Where process_spawn_args_and_wait stands after the spawn: it returned -1, or it waits.
pub data Waiting : Type 0 where
  failed : Waiting
  waits_for : (tid exit_code : ℕ) → Waiting

-- `trampoline` and `elf_launch_process` are the addresses of those functions.
module _ (trampoline elf_launch_process : ℕ) where
  -- What process_spawn_args_ex does with the file that it read. The file is freed once it is loaded.
  unfoldable pub spawn_loaded :
      Option Loaded → List ℕ → List (List ℕ) → ℕ → System → Outcome ProcessPanic (Option ℕ × System)
  spawn_loaded none thread_name argv exit_code_out s = ok (none, s)
  spawn_loaded (some elf) thread_name argv exit_code_out s = do
    (cr3, v) ← within in_vmm (vmm_create_address_space s.space.vmm)
    (proc, h) ← launch_for (kmalloc s.sched.heap launch_size)
    (info, space) ←
        within in_loader
          (elf_load_user_program elf.bytes elf.size cr3 argv (record s.space { vmm = v }))
    (tid, sched) ← within in_scheduler (
        thread_create_process_arg trampoline thread_name elf_launch_process proc cr3 exit_code_out
          (record s.sched { heap = kfree h elf.buf }))
    ok (some tid, record s { space = space; sched = sched; launch = put s.launch proc (some info) })

  -- The thread, or none for -1.
  unfoldable pub process_spawn_args_ex :
      List ℕ → List ℕ → List (List ℕ) → ℕ → System → Outcome ProcessPanic (Option ℕ × System)
  process_spawn_args_ex path thread_name argv exit_code_out s = do
    (elf, h) ← within in_vfs (vfs_read_file s.volume s.sched.heap path)
    spawn_loaded elf thread_name argv exit_code_out
        (record s { sched = record s.sched { heap = h } })

  unfoldable pub process_spawn_args :
      List ℕ → List ℕ → List (List ℕ) → System → Outcome ProcessPanic (Option ℕ × System)
  process_spawn_args path thread_name argv s = process_spawn_args_ex path thread_name argv 0 s

  unfoldable pub process_spawn : List ℕ → List ℕ → System → Outcome ProcessPanic (Option ℕ × System)
  process_spawn path thread_name s = process_spawn_args path thread_name [] s

  -- Up to the loop. `exit_code` is the address of the local variable, which is set to 0 first.
  unfoldable pub start_and_wait :
      ℕ → List ℕ → List ℕ → List (List ℕ) → System → Outcome ProcessPanic (Waiting × System)
  start_and_wait exit_code path thread_name argv s = do
    (tid, t) ←
        process_spawn_args_ex path thread_name argv exit_code
          (record s { sched = record s.sched { memory = put s.sched.memory exit_code 0 } })
    ok (elim tid [ none ↦ failed | some id ↦ waits_for id exit_code ], t)

-- `(int)exit_code` of an int64_t, as its 32 bits.
abbrev pub to_int : ℕ → ℕ
to_int code = code % 2 ^ 32

-- One test of the loop: the result, or none where it calls schedule and tests again.
unfoldable pub poll_exit : ℕ → ℕ → Sched → Option ℕ
poll_exit tid exit_code s =
    if thread_is_alive tid s then none else some (to_int (s.memory exit_code))
