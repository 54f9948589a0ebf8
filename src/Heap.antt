-- ===== src/Heap.antt =====
-- kernel/src/heap.c, the first-fit kernel heap: block headers in memory, linked by address. The
-- lock makes each call one step. The children are about the list of blocks that the headers
-- stand for.
mod Defs
pub mod Cells
pub mod Alloc
pub mod Free
pub mod Live
pub mod Init
pub mod Tests
unfoldable pub use Defs.*
