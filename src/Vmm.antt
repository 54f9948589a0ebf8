-- ===== src/Vmm.antt =====
-- kernel/src/vmm.c, page tables in physical memory. Memory is a map from the address of a word to
-- its 64 bits.
mod Defs
pub mod Range
pub mod Access
pub mod Bits
pub mod Trees
pub mod Descend
pub mod Walks
pub mod Placed
pub mod Mapping
pub mod Tests
unfoldable pub use Defs.*
