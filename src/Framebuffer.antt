-- ===== src/Framebuffer.antt =====
-- kernel/src/framebuffer.c: pixels and text on the screen.
mod Defs
pub mod Pixels
mod Tests
unfoldable pub use Defs.*
