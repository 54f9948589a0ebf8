-- ===== src/Spinlock.antt =====
-- kernel/src/spinlock.c: the lock that the cores share.
mod Defs
pub mod Exclusion
mod Tests
unfoldable pub use Defs.*
