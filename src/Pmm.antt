-- ===== src/Pmm.antt =====
-- kernel/src/pmm.c, the physical page allocator: one bit for each page of 4 KiB. Its static
-- variables are the record `Pmm`. The lock and the interrupt flag make each call one step and are
-- not in this state.
pub mod Bitmap
mod Defs
pub mod Valid
pub mod Alloc
pub mod Owner
pub mod Reserve
pub mod Init
mod Tests
unfoldable pub use Defs.*
