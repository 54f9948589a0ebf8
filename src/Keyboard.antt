-- ===== src/Keyboard.antt =====
-- kernel/src/keyboard.c, the interrupt handler and the ring of characters behind it. Interrupts are
-- off in each call, so a call is one step.
mod Defs
pub mod Queue
mod Tests
unfoldable pub use Defs.*
