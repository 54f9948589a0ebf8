-- ===== src/Elf.antt =====
-- kernel/src/elf_loader.c, which lays a program out in an address space. The bytes of a program's
-- pages are kept by physical address, beside the words of the page tables.
mod Defs
pub mod Argv
pub mod StackFault
mod Tests
unfoldable pub use Defs.*
