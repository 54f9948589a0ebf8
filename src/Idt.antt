-- ===== src/Idt.antt =====
-- kernel/src/idt.c: what an interrupt, an exception or a system call leads to.
mod Defs
pub mod Contained
mod Tests
unfoldable pub use Defs.*
