-- ===== src/Syscall/Tests.antt =====
-- Runs of kernel/src/syscall.c under page tables that map every page for the program.
use reborn_os.Prelude.{
  ℕ, ◌-◌, ◌^◌, ◌≡◌, refl, none, [], ◌∷◌, get_or, leb, if◌then◌else◌, ok, panic, false,
}
use reborn_os.Heap.Tests.{boot_heap}
use reborn_os.Vmm.{Memory, vmm_check_range, check_loop, walk_to_leaf}
use reborn_os.Scheduler.{unused}
use reborn_os.Fat16.Volume.{Volume}
use reborn_os.Syscall.Defs.{
  Kernel, Frame, returns, wrong_ring, string_loop, copy_user_string, user_ptr_valid,
  syscall_dispatch, sys_sbrk, cr3, minus_one,
}

-- Addresses are not translated.
abbrev pub flat : Memory → ℕ → ℕ → ℕ
flat m c a = a

abbrev text_at : ℕ → ℕ
text_at a = if leb 0x1000 a then get_or (111 ∷ 107 ∷ []) (a - 0x1000) 0 else 0

abbrev no_volume : Volume
no_volume = record {
  partition_lba = 0;
  bytes_per_sector = 512;
  sectors_per_cluster = 1;
  cluster_size_bytes = 512;
  fat_start_sector = 1;
  root_dir_start_sector = 2;
  root_dir_sectors = 1;
  root_dir_entry_count = 16;
  first_data_sector = 3;
  fat_cache = λ c. 0;
  fat_cache_entries = 256;
  disk = λ o. 0;
}

abbrev pub sample : Kernel
sample = record {
  system = record {
    space = record {
      vmm = record {
        pmm = record { bitmap = []; bitmap_bits = 0; free_pages = 0; search_hint = 0 };
        memory = λ a. 7;
        kernel_pml4 = 0x2000;
        cr3 = 0x3000;
        efer = 0;
      };
      bytes = text_at;
    };
    sched = record {
      threads = λ i. record {
        rsp = 0;
        cr3 = 0;
        kernel_stack_top = 0;
        stack_base = 0;
        state = unused;
        running_on_core = none;
        heap_brk = 0;
        exit_code_out = 0;
        is_idle = false;
        name = [];
      };
      active_count = 0;
      current_thread = λ c. none;
      idle_tid = λ c. none;
      heap = boot_heap;
      memory = λ a. 0;
      cr3_of = λ c. 0;
      rsp0_of = λ c. 0;
    };
    volume = no_volume;
    launch = λ p. none;
  };
  keyboard = record { buffer = λ i. 0; buf_head = 0; buf_tail = 0 };
  mouse = record { x = 300; y = 7; buttons = 1; packet = λ i. 0; packet_index = 0 };
  screen = record {
    base = 0;
    size = 0;
    width = 0;
    height = 0;
    pixels_per_scanline = 0;
    bytes_per_pixel = 4;
    red_shift = 16;
    green_shift = 8;
    blue_shift = 0;
  };
  output = [];
  write_count = 0;
}

-- "ok"
copied_text : copy_user_string flat 0 0x1000 64 sample ≡ ok (111 ∷ 107 ∷ [])
unfolding copy_user_string string_loop user_ptr_valid vmm_check_range check_loop walk_to_leaf
copied_text = refl

-- SYS_MOUSE_READ into a buffer at 0x2000, from ring 3 and from ring 0.
abbrev mouse_read : ℕ → Frame
mouse_read ring = record { cs = ring; rax = 10; rdi = 0x2000; rsi = 0; rdx = 0 }

refused : syscall_dispatch flat 0 0x100 0x200 0x300 (mouse_read 0) sample ≡ panic wrong_ring
unfolding syscall_dispatch
refused = refl

-- A break that moves down is refused.
shrunk :
    sys_sbrk flat 0 (record (mouse_read 3) { rdi = 2 ^ 64 - 16 }) sample
    ≡ ok (returns minus_one, sample)
unfolding sys_sbrk
shrunk = refl
