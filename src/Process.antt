-- ===== src/Process.antt =====
-- kernel/src/process.c: running a program from a file, and waiting for it.
mod Defs
pub mod Children
mod Tests
unfoldable pub use Defs.*
