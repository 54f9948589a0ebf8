-- ===== src/Syscall/Defs.antt =====
-- The functions of kernel/src/syscall.c over the parts of the kernel that they call.
use reborn_os.Prelude.{
  ℕ, zero, suc, ◌+◌, ◌-◌, ◌*◌, ◌/◌, ◌%◌, ◌^◌, Bool, true, false, ◌||◌, ◌&&◌, not, Option, none,
  some, List, [], ◌∷◌, ◌++◌, length, ltb, leb, ◌==◌, if◌then◌else◌, put, add64, u32, Outcome, ok,
  panic, ◌>>=◌, within,
}
use reborn_os.Pmm.{page_size, pmm_alloc_page}
use reborn_os.Vmm.{Memory, vmm_check_range, vmm_current_cr3, vmm_page_present, vmm_map_page}
use reborn_os.Vmm
use reborn_os.Scheduler.{Panic, thread_exit_code, thread_get_heap_brk, thread_set_heap_brk}
use reborn_os.Elf.{Bytes, Space, copy, field}
use reborn_os.Vfs.{VfsPanic, vfs_list_dir, vfs_read_file_into, vfs_write_file}
use reborn_os.Process.{System, ProcessPanic, Waiting, start_and_wait}
use reborn_os.Keyboard.{Keyboard, keyboard_read_char}
use reborn_os.Mouse.{Mouse}
use reborn_os.Framebuffer.{Framebuffer}
use reborn_os.Kprintf.{Arg, word, text, kvprintf}

-- The state that the system calls reach, the characters written to the serial port, and
-- syscall_write_count.
pub record Kernel : Type 0 where
  pub system : System
  pub keyboard : Keyboard
  pub mouse : Mouse
  pub screen : Framebuffer
  pub output : List ℕ
  pub write_count : ℕ

-- The registers of an interrupt_frame_t that a call reads.
pub record Frame : Type 0 where
  pub cs : ℕ
  pub rax : ℕ
  pub rdi : ℕ
  pub rsi : ℕ
  pub rdx : ℕ

pub data SyscallPanic : Type 0 where
  wrong_ring bad_string bad_argc bad_argv bad_buffer unknown_call : SyscallPanic
  in_process : ProcessPanic → SyscallPanic
  in_files : VfsPanic → SyscallPanic
  in_threads : Panic → SyscallPanic
  in_paging : Vmm.Fault → SyscallPanic

-- The cases of the switch.
pub data Call : Type 0 where
  write_call exit_call read_char_call exec_call list_dir_call read_file_call : Call
  write_file_call fb_info_call fb_map_call mouse_read_call sbrk_call unknown : Call

unfoldable pub call_of : ℕ → Call
call_of n =
    if n == 1
    then write_call
    else if n == 2
    then exit_call
    else if n == 3
    then read_char_call
    else if n == 4
    then exec_call
    else if n == 5
    then list_dir_call
    else if n == 6
    then read_file_call
    else if n == 7
    then write_file_call
    else if n == 8
    then fb_info_call
    else if n == 9
    then fb_map_call
    else if n == 10
    then mouse_read_call
    else if n == 11
    then sbrk_call
    else unknown

-- How a call goes on: back to the program with a value in rax; the thread has ended; after a call of
-- schedule it tests again; or it waits for a child.
pub data Reply : Type 0 where
  returns : ℕ → Reply
  ended again : Reply
  awaits : Waiting → Reply

abbrev pub minus_one : ℕ
minus_one = 2 ^ 64 - 1

abbrev pub paths_max : ℕ
paths_max = 64

abbrev pub tables : Kernel → Memory
tables k = k.system.space.vmm.memory

abbrev pub cr3 : Kernel → ℕ
cr3 k = k.system.space.vmm.cr3

-- A check whose walk over the last page of the address space does not end is counted as a failure.
abbrev pub passes : Option Bool → Bool
passes none = false
passes (some verdict) = verdict

unfoldable pub user_ptr_valid : Kernel → ℕ → ℕ → Bool → Bool
user_ptr_valid k ptr len need_write = passes (vmm_check_range (tables k) (cr3 k) ptr len need_write)

abbrev pub require : Bool → SyscallPanic → Outcome SyscallPanic (Unit {0})
require true cause = ok tt
require false cause = panic cause

-- "%s"
abbrev pub string_format : List ℕ
string_format = 37 ∷ 115 ∷ []

-- "syscall: thread exited with code %ld\n"
abbrev pub exit_format : List ℕ
exit_format =
    115 ∷ 121 ∷ 115 ∷ 99 ∷ 97 ∷ 108 ∷ 108 ∷ 58 ∷ 32 ∷ 116 ∷ 104 ∷ 114 ∷ 101 ∷ 97 ∷ 100 ∷ 32 ∷ 101
    ∷ 120 ∷ 105 ∷ 116 ∷ 101 ∷ 100 ∷ 32 ∷ 119 ∷ 105 ∷ 116 ∷ 104 ∷ 32 ∷ 99 ∷ 111 ∷ 100 ∷ 101 ∷ 32 ∷ 37
    ∷ 108 ∷ 100 ∷ 10 ∷ []

-- kprintf with its arguments.
abbrev pub printed : List ℕ → List Arg → Kernel → Kernel
printed fmt args k = record k {
  output = k.output ++ elim (kvprintf fmt args) [ none ↦ [] | some s ↦ s ];
}

-- A little-endian number of `n` bytes.
abbrev pub le_bytes : ℕ → ℕ → List ℕ
le_bytes zero v = []
le_bytes (suc n) v = v % 256 ∷ le_bytes n (v / 256)

-- The buffers of SYS_FB_INFO and SYS_MOUSE_READ.
abbrev pub fb_info_bytes : Framebuffer → List ℕ
fb_info_bytes fb =
    le_bytes 4 fb.width
    ++ (le_bytes 4 fb.height
        ++ (le_bytes 4 fb.pixels_per_scanline
            ++ (le_bytes 4 fb.bytes_per_pixel
                ++ (fb.red_shift ∷ fb.green_shift ∷ fb.blue_shift ∷ 0 ∷ []))))

abbrev pub mouse_bytes : Mouse → List ℕ
mouse_bytes m = le_bytes 4 m.x ++ (le_bytes 4 m.y ++ (m.buttons ∷ 0 ∷ 0 ∷ 0 ∷ []))

-- USER_FB_VADDR
abbrev pub user_fb_vaddr : ℕ
user_fb_vaddr = 0x8000400000 + 0x8000000

-- The loop of SYS_FB_MAP from page `i` on.
unfoldable pub fb_map_loop : ℕ → ℕ → ℕ → Vmm.Vmm → Outcome SyscallPanic Vmm.Vmm
fb_map_loop zero i base v = ok v
fb_map_loop (suc rounds) i base v =
    let vaddr = user_fb_vaddr + i * page_size in
    elim (vmm_page_present v.memory v.cr3 vaddr) [
      | true ↦ fb_map_loop rounds (i + 1) base v
      | false ↦ (do
        w ← within in_paging (vmm_map_page v.cr3 vaddr (add64 base (i * page_size)) 1 v)
        fb_map_loop rounds (i + 1) base w)
    ]

-- The loop of SYS_SBRK from page `p` on: whether every page is there, and the space.
unfoldable pub sbrk_loop : ℕ → ℕ → Space → Outcome SyscallPanic (Bool × Space)
sbrk_loop zero p s = ok (true, s)
sbrk_loop (suc rounds) p s = elim (vmm_page_present s.vmm.memory s.vmm.cr3 p) [
  | true ↦ sbrk_loop rounds (p + page_size) s
  | false ↦
      let (phys, pmm) = pmm_alloc_page s.vmm.pmm in
      elim (phys == 0) [
        | true ↦ ok (false, record s { vmm = record s.vmm { pmm = pmm } })
        | false ↦ (do
          v ← within in_paging (vmm_map_page s.vmm.cr3 p phys 1 (record s.vmm { pmm = pmm }))
          sbrk_loop rounds (p + page_size)
              (record { vmm = v; bytes = copy s.bytes phys page_size (λ o. 0) }))
      ]
]

abbrev pub with_space : Space → Kernel → Kernel
with_space s k = record k { system = record k.system { space = s } }

-- `mmu` is the processor's translation of an address under a CR3. `core` is the core that the call
-- runs on, `exit_slot` the address of the local variable of process_spawn_args_and_wait.
module _ (mmu : Memory → ℕ → ℕ → ℕ) (core : ℕ) where
  abbrev pub user_byte : Kernel → ℕ → ℕ
  user_byte k a = k.system.space.bytes (mmu (tables k) (cr3 k) a)

  -- Bytes written to user memory from `vaddr` on.
  unfoldable pub store_loop : List ℕ → ℕ → Kernel → Kernel
  store_loop [] vaddr k = k
  store_loop (b ∷ bs) vaddr k = store_loop bs (vaddr + 1) (
      with_space
        (record k.system.space {
          bytes = put k.system.space.bytes (mmu (tables k) (cr3 k) vaddr) b;
        })
        k)

  -- The first bytes of a buffer of the kernel.
  abbrev pub taken : ℕ → ℕ → Bytes → List ℕ
  taken zero o src = []
  taken (suc n) o src = src o ∷ taken n (o + 1) src

  -- The loop of copy_user_string, with the rounds left. The byte at a page's start, and the first,
  -- have their page checked.
  unfoldable pub string_loop : ℕ → Bool → ℕ → Kernel → Outcome SyscallPanic (List ℕ)
  string_loop zero first addr k = ok []
  string_loop (suc rounds) first addr k =
      elim ((addr % page_size == 0 || first) && not (user_ptr_valid k addr 1 false)) [
        | true ↦ panic bad_string
        | false ↦ elim (user_byte k addr == 0) [
          | true ↦ ok []
          | false ↦ (do
            rest ← string_loop rounds false (add64 addr 1) k
            ok (user_byte k addr ∷ rest))
        ]
      ]

  unfoldable pub copy_user_string : ℕ → ℕ → Kernel → Outcome SyscallPanic (List ℕ)
  copy_user_string user_ptr out_size k = string_loop (out_size - 1) true user_ptr k

  unfoldable pub sys_write : Frame → Kernel → Outcome SyscallPanic (Reply × Kernel)
  sys_write f k = do
    msg ← copy_user_string f.rdi 256 k
    let shown = printed string_format (text (some msg) ∷ []) k
    ok (returns 0, record shown { write_count = add64 shown.write_count 1 })

  unfoldable pub sys_exit : Frame → Kernel → Outcome SyscallPanic (Reply × Kernel)
  sys_exit f k = do
    s ← within in_threads (thread_exit_code core f.rdi k.system.sched)
    let shown = printed exit_format (word f.rdi ∷ []) k
    ok (ended, record shown { system = record shown.system { sched = s } })

  unfoldable pub sys_read_char : Kernel → Reply × Kernel
  sys_read_char k =
      let (c, keyboard) = keyboard_read_char k.keyboard in
      (elim c [ none ↦ again | some c ↦ returns c ], record k { keyboard = keyboard })

  -- The pointer in element `i` of the argv array.
  abbrev pub user_word : Kernel → ℕ → ℕ
  user_word k a = field 8 (user_byte k) a

  unfoldable pub args_loop : ℕ → ℕ → Kernel → Outcome SyscallPanic (List (List ℕ))
  args_loop zero array k = ok []
  args_loop (suc argc) array k = do
    arg ← copy_user_string (user_word k array) 128 k
    rest ← args_loop argc (array + 8) k
    ok (arg ∷ rest)

  abbrev pub first_of : List (List ℕ) → List ℕ
  first_of [] = []
  first_of (a ∷ argv) = a

  -- The name of the thread is "exec".
  unfoldable pub sys_exec : ℕ → ℕ → ℕ → Frame → Kernel → Outcome SyscallPanic (Reply × Kernel)
  sys_exec trampoline elf_launch_process exit_slot f k = do
    counted ← require (not (f.rsi == 0 || ltb 16 f.rsi)) bad_argc
    checked ← require (user_ptr_valid k f.rdi (f.rsi * 8) false) bad_argv
    argv ← args_loop f.rsi f.rdi k
    (w, s) ← within in_process (
        start_and_wait trampoline elf_launch_process exit_slot (first_of argv)
          (101 ∷ 120 ∷ 101 ∷ 99 ∷ []) argv k.system)
    ok (awaits w, record k { system = s })

  -- The buffer of SYS_LIST_DIR: the lines and a NUL, if it has any room.
  abbrev pub listing : ℕ → Option (List ℕ) → ℕ → Kernel → Reply × Kernel
  listing max_len none buf k = (returns minus_one, k)
  listing max_len (some lines) buf k =
      (returns (length lines), if max_len == 0 then k else store_loop (lines ++ (0 ∷ [])) buf k)

  unfoldable pub sys_list_dir : Frame → Kernel → Outcome SyscallPanic (Reply × Kernel)
  sys_list_dir f k = do
    path ← if f.rdi == 0 then ok [] else copy_user_string f.rdi paths_max k
    checked ← require (user_ptr_valid k f.rsi f.rdx true) bad_buffer
    lines ← within in_files (vfs_list_dir k.system.volume path (u32 f.rdx))
    ok (listing (u32 f.rdx) lines f.rsi k)

  abbrev pub file_read : Option ℕ × Bytes → ℕ → Kernel → Reply × Kernel
  file_read (none, bytes) buf k = (returns minus_one, k)
  file_read (some n, bytes) buf k = (returns n, store_loop (taken n 0 bytes) buf k)

  unfoldable pub sys_read_file : Frame → Kernel → Outcome SyscallPanic (Reply × Kernel)
  sys_read_file f k = do
    path ← copy_user_string f.rdi paths_max k
    checked ← require (user_ptr_valid k f.rsi f.rdx true) bad_buffer
    result ←
        within in_files
          (vfs_read_file_into k.system.volume path (λ o. user_byte k (f.rsi + o)) (u32 f.rdx))
    ok (file_read result f.rsi k)

  unfoldable pub sys_write_file : Frame → Kernel → Outcome SyscallPanic (Reply × Kernel)
  sys_write_file f k = do
    path ← copy_user_string f.rdi paths_max k
    checked ← require (user_ptr_valid k f.rsi f.rdx false) bad_buffer
    volume ←
        within in_files
          (vfs_write_file k.system.volume path (λ o. user_byte k (f.rsi + o)) (u32 f.rdx))
    ok (returns 0, record k { system = record k.system { volume = volume } })

  unfoldable pub sys_fb_info : Frame → Kernel → Outcome SyscallPanic (Reply × Kernel)
  sys_fb_info f k = do
    checked ← require (user_ptr_valid k f.rdi 20 true) bad_buffer
    ok (returns 0, store_loop (fb_info_bytes k.screen) f.rdi k)

  unfoldable pub sys_fb_map : Kernel → Outcome SyscallPanic (Reply × Kernel)
  sys_fb_map k = do
    v ←
        fb_map_loop (add64 k.screen.size (page_size - 1) / page_size) 0 k.screen.base
          k.system.space.vmm
    ok (returns user_fb_vaddr, with_space (record k.system.space { vmm = v }) k)

  unfoldable pub sys_mouse_read : Frame → Kernel → Outcome SyscallPanic (Reply × Kernel)
  sys_mouse_read f k = do
    checked ← require (user_ptr_valid k f.rdi 12 true) bad_buffer
    ok (returns 0, store_loop (mouse_bytes k.mouse) f.rdi k)

  -- The break moves only if every page is there.
  abbrev pub move_break : ℕ → ℕ → Bool → Kernel → Outcome SyscallPanic (Reply × Kernel)
  move_break old new false k = ok (returns minus_one, k)
  move_break old new true k = do
    s ← within in_threads (thread_set_heap_brk core new k.system.sched)
    ok (returns old, record k { system = record k.system { sched = s } })

  -- An increment of 2^63 or more is negative.
  unfoldable pub grow_heap : Frame → Kernel → Outcome SyscallPanic (Reply × Kernel)
  grow_heap f k = do
    old ← within in_threads (thread_get_heap_brk core k.system.sched)
    let new = add64 old f.rdi
    let start = old / page_size * page_size
    let end = add64 new (page_size - 1) / page_size * page_size
    (all_there, s) ← sbrk_loop ((end - start) / page_size) start k.system.space
    move_break old new all_there (with_space s k)

  unfoldable pub sys_sbrk : Frame → Kernel → Outcome SyscallPanic (Reply × Kernel)
  sys_sbrk f k = if leb (2 ^ 63) f.rdi then ok (returns minus_one, k) else grow_heap f k

  -- `trampoline` and `elf_launch_process` are the addresses of those functions.
  module _ (trampoline elf_launch_process exit_slot : ℕ) where
    unfoldable pub perform : Call → Frame → Kernel → Outcome SyscallPanic (Reply × Kernel)
    perform write_call f k = sys_write f k
    perform exit_call f k = sys_exit f k
    perform read_char_call f k = ok (sys_read_char k)
    perform exec_call f k = sys_exec trampoline elf_launch_process exit_slot f k
    perform list_dir_call f k = sys_list_dir f k
    perform read_file_call f k = sys_read_file f k
    perform write_file_call f k = sys_write_file f k
    perform fb_info_call f k = sys_fb_info f k
    perform fb_map_call f k = sys_fb_map k
    perform mouse_read_call f k = sys_mouse_read f k
    perform sbrk_call f k = sys_sbrk f k
    perform unknown f k = panic unknown_call

    unfoldable pub syscall_dispatch : Frame → Kernel → Outcome SyscallPanic (Reply × Kernel)
    syscall_dispatch f k =
        if not (f.cs % 4 == 3) then panic wrong_ring else perform (call_of f.rax) f k
