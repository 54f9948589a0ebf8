-- ===== src/Minilib.antt =====
-- common/src/minilib.c: the memory and string functions that the kernel and the loader link.
mod Defs
mod Copies
mod Tests
unfoldable pub use Defs.*
pub use Copies.*
