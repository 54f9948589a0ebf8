-- ===== src/Vfs.antt =====
-- kernel/src/vfs.c: the calls on files that the rest of the kernel makes, under one lock.
mod Defs
pub mod Reading
pub mod Lengths
mod Tests
unfoldable pub use Defs.*
