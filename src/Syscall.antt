-- ===== src/Syscall.antt =====
-- kernel/src/syscall.c: what a user program can ask the kernel to do.
mod Defs
pub mod Strings
pub mod Guarded
pub mod Tests
unfoldable pub use Defs.*
