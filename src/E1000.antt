-- ===== src/E1000.antt =====
-- kernel/src/e1000.c, the rings of the network card.
mod Defs
pub mod Receive
pub mod Poll
pub mod Card
pub mod Fifo
pub mod Init
pub mod Send
mod Tests
unfoldable pub use Defs.*
