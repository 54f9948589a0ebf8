-- ===== src/Lib.antt =====
-- RebornOS, an x86-64 kernel in C.
--
-- kernel/src/pmm.c gives out physical pages, kernel/src/heap.c gives out blocks of a region that it
-- reserves from it at boot, kernel/src/vmm.c builds page tables from its pages,
-- kernel/src/scheduler.c takes the stacks of its threads from the heap and runs them on every core,
-- and kernel/src/fat16.c is the file system on the disk.
--
--   Prelude    Boolean tests, lists with an index, machine words (u8, u32, u64 and the 64-bit add64,
--              sub64, mul64), and `Outcome`: a call returns, or ends in panic().
--   Pmm        kernel/src/pmm.c. The static variables are the record `Pmm`; each function has its
--              name. Bitmap is the bit operations, Valid the invariant, Alloc the calls on one page,
--              Reserve and Init the regions, Owner the clients over any sequence of calls.
--   Heap       kernel/src/heap.c. Block headers are a map from an address to a header; Cells is the
--              list of blocks that they stand for; Alloc, Free, Live and Init are about kmalloc, kfree,
--              the live allocations and heap_init.
--   Scheduler  kernel/src/scheduler.c and the switch of kernel/src/context_switch.S. Defs is the table
--              and its calls, Machine the steps of the cores in any order, Ready and Turns the search
--              for a thread, Exclusive the invariant, Steps and Mutex the steps against it.
--   Fat16      kernel/src/fat16.c. Name is format_83 and the listed line, Volume the mounted volume,
--              Dir the directories and paths, File the calls on files; NameLaws and Search are about
--              the names and the searches; Chain, Clusters, FreeChain, Round, WriteLoop, Write,
--              EntryWrite and WriteFile about the clusters of a file.
--   Vmm        kernel/src/vmm.c. Defs is the tables and the walks, Range and Access the check of a range, Bits
--              the flags of an entry, Trees and Descend the invariant of the tables and a step down
--              them, Walks, Placed and Mapping the mapping of a page.
--   Keyboard   kernel/src/keyboard.c. Defs is the ring and the handler, Queue the queue that it is.
--   Elf        kernel/src/elf_loader.c. Defs is the loader, Argv the arguments on the stack,
--              StackFault the stack that grows.
--   Minilib    common/src/minilib.c. Defs is the loops over memory, Copies what they leave.
--   Kprintf    kernel/src/kprintf.c. Defs is the printing, Digits the numbers, Text the text that a
--              format means, Format that it is written.
--   Spinlock   kernel/src/spinlock.c. Defs is the accesses of the lock, Exclusion who holds it.
--   Vfs        kernel/src/vfs.c, over Fat16 and Heap. Reading and Lengths are about what it gives back.
--   Process    kernel/src/process.c, over Vfs, Vmm, Elf and Scheduler. Children is the wait.
--   Syscall    kernel/src/syscall.c, over all of these. Strings is the copies from user memory,
--              Guarded the writes to it.
--   Idt        kernel/src/idt.c, over Syscall and Elf. Contained is about the faults of programs.
--   Acpi       kernel/src/acpi.c. Madt is the walk over the table of processors.
--   Shell      userland/shell.c. Tokens is the words of a line.
--   Net        kernel/src/net.c. Checksum and Packets are what is sent, Polling the wait for an
--              answer, Arp the request and its reply.
--   E1000      kernel/src/e1000.c. Defs is the rings, Receive the frames in the receive ring, Poll and
--              Card a step of the driver and of the card, Fifo any run of both, Init the set-up, Send
--              the transmit ring.
--   Framebuffer  kernel/src/framebuffer.c. Pixels is where a pixel lies.
--   Mouse      kernel/src/mouse.c. Defs is the packet handler, Pointer the pointer and the screen.
--
-- Numbers are natural numbers with the wrap-around of the source's types written out. The locks and
-- the interrupt flag are not part of a state: a function under its lock is one step, and what
-- schedule does after it releases the lock is a step of its own. Each loop has a bound on its
-- rounds: the pages of the bitmap, the 32 threads, the entries of a directory and the bytes left to
-- read are the source's own bounds; a walk over heap blocks has heap_size / 24 + 2 rounds, more
-- than the region has room for headers; a walk over a cluster chain has 0x10000 rounds, more than
-- there are clusters, and a chain that needs more has a cycle; a path walk has a round for each
-- character and one more; the check of a range has a round for each page and one more.
--
-- print_unsigned has room for 32 digits, as in the source; the carries of the checksum are added in
-- 2 rounds, which 32 bits never exceed; the loops of strlen and strcmp, which have no bound in the
-- source, end without a result when their rounds run out.
--
-- The disk is an array of bytes: kernel/src/ahci.c is not modelled. A failure of kmalloc for a
-- buffer of fat16.c is left out. In Net the network card is a parameter, and so is the translation of
-- addresses by the processor in Syscall. In E1000 the steps of the card are those that its manual
-- allows; the registers that start it are left out. What the handlers of exceptions print, the other drivers, the descriptor tables,
-- the start of the other cores, the boot loader and the programs of userland but the shell are not
-- modelled here.
pub mod Prelude
pub mod Minilib
pub mod Pmm
pub mod Heap
pub mod Scheduler
pub mod Fat16
pub mod E1000
pub mod Vmm
pub mod Keyboard
pub mod Elf
pub mod Mouse
pub mod Framebuffer
pub mod Syscall
pub mod Spinlock
pub mod Shell
pub mod Acpi
pub mod Idt
pub mod Vfs
pub mod Process
pub mod Kprintf
pub mod Net
