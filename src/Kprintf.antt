-- ===== src/Kprintf.antt =====
-- kernel/src/kprintf.c: numbers as text, and the formatted output of the kernel.
mod Defs
pub mod Digits
pub mod Text
pub mod Format
mod Tests
unfoldable pub use Defs.*
